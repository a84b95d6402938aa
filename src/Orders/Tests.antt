-- ===== src/Orders/Tests.antt =====
-- Runs of `OrderManager.submit` of dhan_cas_bot/orders.py, and its theorems at concrete inputs.
use dhan_bot.Orders.Trades.{confirm_historical_order}
use dhan_bot.Orders.Reconcile.{record_trades}
use dhan_bot.Orders.Resolve.{settle_intent}
use dhan_bot.Domain.{check_fill}
use dhan_bot.Ledger.{
  set_intent_state, record_fill_once, find_fill, find_legacy, new_fill, put_state,
}
use dhan_bot.Orders.Settled.{Concluded, reconcile_order-Concluded}
use dhan_bot.Orders.States.{state_of}
use dhan_bot.Orders.Trades.{Trade}
use dhan_bot.Orders.Reconcile.{reconcile_order}
use dhan_bot.Risk.{worst_case_entry_cash, buy_fees, common_fees, upper, reserve_cash, ceil_paise}
use dhan_bot.Domain.{tick, buy, is_none}
use dhan_bot.Orders.Windows.{HasRoom, KeepsFree, rate_attempt-reserves}
use dhan_bot.Orders.Outcome.{Submitted, submit-Submitted}
use dhan_bot.Orders.Request.{order_request}
use dhan_bot.Ledger.{
  Db, empty_db, pending_intents, create_intent, record_attempt, put_state, record_order, find_order,
  find_intent, filled_quantity, reopen_recovery_closed, put_order, recovery_closed_valid, OrderRow,
  IntentRow, sent, filled,
}
use dhan_bot.Orders.Submit.{
  submit, placed, check_submission, dispatch, held_quantity, pending_sales,
}
use dhan_bot.Orders.Action.{Account}
use dhan_bot.Domain.{sell}
use dhan_bot.Prelude.{
  refl, ◌≡◌, ◌≤◌, ◌<◌, ◌+◌, ◌*◌, ◌↔◌, ok, err, [], true, ℕ, arith, ◌∷◌, none, some, false,
}
use dhan_bot.Samples.{purchase, traded_order}
use dhan_bot.Orders.Rate.{
  windows, open_holdings, rate_attempt, exit_reserve, pending_buys, check_windows, used_since,
}

-- A purchase of the sample is sent, and the broker answers with an order.
abbrev opened : Account
opened = record { db = empty_db; revision = 0 }

submit_run :
    (submit 2000000 "acct" purchase 80000000 true "a1" (ok []) (placed traded_order) opened).0
    ≡ ok "o1"
unfolding submit check_submission order_request tick worst_case_entry_cash buy_fees common_fees
    upper reserve_cash ceil_paise dispatch held_quantity pending_sales pending_intents create_intent
    rate_attempt open_holdings check_windows used_since record_attempt put_state record_order
    find_order find_intent filled_quantity reopen_recovery_closed put_order recovery_closed_valid
submit_run = refl

-- A reservation of 700 rupees is too small.
submit_refused :
    submit 2000000 "acct" purchase 7000000 true "a1" (ok []) (placed traded_order) opened
    ≡ (err "entry reservation understates worst-case debit", opened)
unfolding submit check_submission order_request tick worst_case_entry_cash buy_fees common_fees
    upper reserve_cash ceil_paise dispatch held_quantity pending_sales pending_intents create_intent
    rate_attempt open_holdings check_windows used_since record_attempt put_state record_order
    find_order find_intent filled_quantity reopen_recovery_closed put_order
submit_refused = refl

-- A sale of what is not held.
sale_refused :
    submit 2000000 "acct"
      (record purchase { side = sell })
      100
      true
      "a1"
      (ok [])
      (placed traded_order)
      opened
    ≡ (err "sale exceeds unreserved broker long quantity", opened)
unfolding submit check_submission order_request tick worst_case_entry_cash buy_fees common_fees
    upper reserve_cash ceil_paise dispatch held_quantity pending_sales pending_intents create_intent
    rate_attempt open_holdings check_windows used_since record_attempt put_state record_order
    find_order find_intent filled_quantity reopen_recovery_closed put_order
sale_refused = refl

submit-Submitted_example :
    let positions = ok [] in
    let (r, s') =
      submit 2000000 "acct" purchase 80000000 true "a1" positions (placed traded_order) opened in
    Submitted "acct" purchase 80000000 positions (placed traded_order) opened r s'
submit-Submitted_example =
    submit-Submitted 2000000 "acct" purchase 80000000 true "a1" (ok []) (placed traded_order) opened

open_run : open_holdings empty_db [] ≡ ok 0
unfolding open_holdings
open_run = refl

rate_attempt-reserves_example :
    (((db' : Db) × (rate_attempt 5 purchase "a1" empty_db ≡ ok db'))
      ↔ HasRoom 5 (exit_reserve buy (pending_buys empty_db + 0) 1800) [] windows)
    × ((db' : Db) (later : ℕ)
        → rate_attempt 5 purchase "a1" empty_db ≡ ok db'
        → 5 ≤ later
        → KeepsFree later
            (exit_reserve buy (pending_buys empty_db + 0) 1800)
            db'.rate_events
            windows)
    × (buy ≡ buy
        → (0 < exit_reserve buy (pending_buys empty_db + 0) 1800)
          × (pending_buys empty_db + 0 ≤ exit_reserve buy (pending_buys empty_db + 0) 1800 * 1800))
rate_attempt-reserves_example =
    rate_attempt-reserves 5 purchase "a1" empty_db 0 open_run (omega arith)

abbrev sent_row : IntentRow
sent_row = record {
  intent_id = "buy-1";
  client_order_id = "c1";
  lifecycle_id = "life-1";
  side = buy;
  security_id = "45001";
  quantity = 75;
  price = 1000500;
  state = sent;
  reserved_cash = 80000000;
  created_at = 1;
}

abbrev trade : Trade
trade = record {
  order_id = "o1";
  client_id = none;
  security_id = some "45001";
  transaction_type = some "BUY";
  exchange_segment = none;
  product_type = none;
  trade_id = "t1";
  quantity = 75;
  price = 1000000;
  fees = none;
  components = none ∷ none ∷ some 3500 ∷ none ∷ none ∷ none ∷ [];
}

abbrev waiting : Account
waiting = record { db = record empty_db { intents = sent_row ∷ [] }; revision = 7 }

abbrev reconciled : Account
reconciled = (reconcile_order 5 "acct" sent_row traded_order (trade ∷ []) [] waiting).1

reconcile_run :
    reconcile_order 5 "acct" sent_row traded_order (trade ∷ []) [] waiting ≡ (ok tt, reconciled)
unfolding reconcile_order record_order find_order confirm_historical_order record_trades check_fill
    record_fill_once find_fill reopen_recovery_closed find_legacy new_fill find_intent
    filled_quantity settle_intent put_order
reconcile_run = refl

waiting_run : is_none (state_of "buy-1" waiting.db.intents) ≡ false
unfolding state_of
waiting_run = refl

reconcile_order-Concluded_example :
    (stored : OrderRow) × (find_order "o1" reconciled.db.orders ≡ some stored)
    × (stored.intent_id ≡ "buy-1")
    × Concluded sent_row traded_order stored waiting.db reconciled.db
reconcile_order-Concluded_example =
    reconcile_order-Concluded 5 "acct" sent_row traded_order (trade ∷ []) [] waiting tt reconciled
      reconcile_run waiting_run

-- The intent is FILLED then.
reconciled_run : state_of "buy-1" reconciled.db.intents ≡ some filled
unfolding reconcile_order record_order find_order confirm_historical_order record_trades check_fill
    record_fill_once find_fill reopen_recovery_closed find_legacy new_fill find_intent
    filled_quantity settle_intent put_order put_state state_of set_intent_state
reconciled_run = refl
