-- ===== src/Orders/Submit.antt =====
-- `OrderManager.submit` of dhan_cas_bot/orders.py and `ExitManager.reduce` of
-- dhan_cas_bot/exit_manager.py. The broker is outside: its answers are arguments.
use dhan_bot.Prelude.{
  ℕ, ◌+◌, String, str_eq, Bool, true, Option, none, some, List, [], ◌∷◌, not, ◌&&◌, ltb, select,
  sum_of, ℤ, pos, ◌+ℤ◌, ltb_ℤ, Result, ok, err, if◌then◌else◌,
}
use dhan_bot.Domain.{Side, buy, sell, Intent}
use dhan_bot.Risk.{default_fees, worst_case_entry_cash, reserve_cash}
use dhan_bot.Ledger.{
  Db, IntentRow, BrokerOrder, started, unknown, accepted, aborted, is_buy, pending_intents,
  create_intent, set_intent_state, record_attempt, record_order,
}
use dhan_bot.Orders.Action.{
  Action, pure, lift, gets, ◌>>=◌, ◌>>◌, refuse_if, modify, commit, account_changed,
}
use dhan_bot.Orders.Request.{order_request}
use dhan_bot.Orders.Rate.{rate_attempt}

-- A row of `broker.positions()`; a missing segment or product counts as the managed one.
pub record Position : Type 0 where
  pub security_id : String
  pub exchange_segment : Option String
  pub product_type : Option String
  pub net_quantity : ℤ

-- `submit_order` raised, or answered without an order identity, or answered with an order.
pub data Reply : Type 0 where
  failed : String → Reply
  ambiguous : Reply
  placed : BrokerOrder → Reply

abbrev is_or_missing : String → Option String → Bool
is_or_missing text none = true
is_or_missing text (some t) = str_eq t text

abbrev pub is_managed : String → Position → Bool
is_managed security p =
    str_eq p.security_id security
    && is_or_missing "NSE_FNO" p.exchange_segment
    && is_or_missing "MARGIN" p.product_type

unfoldable pub held_quantity : String → List Position → ℤ
held_quantity security [] = pos 0
held_quantity security (p ∷ ps) =
    (if is_managed security p then p.net_quantity else pos 0) +ℤ held_quantity security ps

unfoldable pub pending_sales : String → Db → ℕ
pending_sales security db =
    sum_of (λ (r : IntentRow). r.quantity)
      (select (λ (r : IntentRow). not (is_buy r.side) && str_eq r.security_id security)
        (pending_intents db))

-- The check of a purchase's reservation; a sale has none.
abbrev pub check_reservation : Side → Intent → ℕ → Action (Unit {0})
check_reservation buy x reserved = do
  cash ← lift (worst_case_entry_cash x.quantity x.limit_price 1 default_fees)
  refuse_if (ltb reserved (reserve_cash cash)) "entry reservation understates worst-case debit"
check_reservation sell x reserved = pure tt

-- The check of a sale against the broker's position and the sales that are pending.
abbrev pub check_holding : Side → Intent → Result (List Position) → Action (Unit {0})
check_holding buy x positions = pure tt
check_holding sell x positions = do
  pending ← gets (λ db. ok (pending_sales x.instrument.security_id db))
  rows ← lift positions
  refuse_if (ltb_ℤ (held_quantity x.instrument.security_id rows) (pos (x.quantity + pending)))
      "sale exceeds unreserved broker long quantity"

-- The `except` around `_rate_attempt`: the intent is aborted and the error goes on.
abbrev pub rated : String → Result Db → Action (Unit {0})
rated id (ok db) s = (ok tt, record s { db = db })
rated id (err e) s = (err e, record s { db = set_intent_state id aborted s.db })

abbrev pub rate_or_abort : ℕ → Intent → String → Action (Unit {0})
rate_or_abort now x attempt_id s = rated x.intent_id (rate_attempt now x attempt_id s.db) s

-- What follows the broker's answer.
abbrev pub conclude : ℕ → Intent → String → String → Reply → Action String
conclude now x account attempt_id (failed e) = do
  modify (record_attempt now attempt_id x.intent_id unknown)
  account_changed
  lift (err e)
conclude now x account attempt_id ambiguous = do
  account_changed
  modify (record_attempt now attempt_id x.intent_id unknown)
  lift (err "broker response is ambiguous; reconciliation required")
conclude now x account attempt_id (placed o) = do
  account_changed
  modify (record_attempt now attempt_id x.intent_id accepted)
  commit (record_order o.order_id x.intent_id account o.status o)
  pure o.order_id

-- The checks of `submit` before anything is written. `ready` is what `pre_dispatch` answers, true
-- where there is none.
unfoldable pub check_submission :
    String → Intent → ℕ → Bool → Result (List Position) → Action (Unit {0})
check_submission account x reserved ready positions = do
  lift (order_request x account)
  check_reservation x.side x reserved
  refuse_if (not ready) "entry inputs changed before dispatch"
  check_holding x.side x positions

-- The rest of `submit`: the intent and the attempt are committed before the broker is called.
unfoldable pub dispatch : ℕ → String → Intent → ℕ → String → Reply → Action String
dispatch now account x reserved attempt_id reply = do
  commit (create_intent x reserved)
  rate_or_abort now x attempt_id
  modify (record_attempt now attempt_id x.intent_id started)
  account_changed
  conclude now x account attempt_id reply

unfoldable pub submit :
    ℕ → String → Intent → ℕ → Bool → String → Result (List Position) → Reply → Action String
submit now account x reserved ready attempt_id positions reply = do
  check_submission account x reserved ready positions
  dispatch now account x reserved attempt_id reply
