-- ===== src/Orders/Resolve.antt =====
-- The pieces of `OrderManager.reconcile` of dhan_cas_bot/orders.py that read and write the ledger
-- alone: the broker's order of an intent, an intent without one, and the state that the evidence
-- gives. What the broker is asked is an argument.
use dhan_bot.Domain.{Fill}
use dhan_bot.Ledger.{
  Db, IntentRow, OrderRow, BrokerOrder, OrderState, IntentState, traded, cancelled, rejected,
  expired, working, filled, send_unknown, pending_send, aborted, find_order, is_terminal,
  filled_quantity, is_settled, AttemptRow, set_intent_state,
}
use dhan_bot.Prelude.{
  ℕ, String, Bool, true, false, not, any, Option, none, some, List, [], ◌∷◌, Result, ok, err, ◌>>◌,
  if◌then◌else◌, str_eq, find, ◌==◌, ◌&&◌, leb, ◌||◌, raise_if, ltb,
}
use dhan_bot.Orders.Trades.{Trade, trade_fees, expected_quantity}

-- `a or b`
abbrev pub first_of : Option BrokerOrder → Option BrokerOrder → Option BrokerOrder
first_of none second = second
first_of (some o) second = some o

-- The last of the elements that pass, which is what a dictionary built from the list holds.
abbrev pub find_last : (BrokerOrder → Bool) → List BrokerOrder → Option BrokerOrder
find_last p [] = none
find_last p (o ∷ os) = first_of (find_last p os) (if p o then some o else none)

abbrev pub correlates : String → Option String → Bool
correlates client_id none = false
correlates client_id (some text) = not (str_eq text "") && str_eq text client_id

abbrev pub saved_order : String → List OrderRow → Option OrderRow
saved_order id rows = find (λ (r : OrderRow). str_eq r.intent_id id) rows

abbrev pub by_id : Option OrderRow → List BrokerOrder → Option BrokerOrder
by_id none orders = none
by_id (some saved) orders = find_last (λ (o : BrokerOrder). str_eq o.order_id saved.order_id) orders

abbrev pub saved_payload : Option OrderRow → Option BrokerOrder
saved_payload none = none
saved_payload (some saved) = if is_terminal saved.state then some saved.payload else none

abbrev pub is_pending_send : IntentState → Bool
is_pending_send pending_send = true
is_pending_send _ = false

-- `lookup` is `order_by_correlation` of the broker, if it has one.
abbrev pub ask :
    Option (String → Result (Option BrokerOrder))
    → IntentRow
    → Option BrokerOrder
    → Result (Option BrokerOrder)
ask lookup r (some o) = ok (some o)
ask none r none = ok none
ask (some f) r none =
    if is_settled r.state || is_pending_send r.state then ok none else f r.client_order_id

-- The broker's order of an intent, before the writer lock.
unfoldable pub resolve :
    List BrokerOrder
    → Option (String → Result (Option BrokerOrder))
    → Db
    → IntentRow
    → Result (Option BrokerOrder)
resolve orders lookup db r =
    let saved = saved_order r.intent_id db.orders in
    let current =
      first_of
        (find_last (λ (o : BrokerOrder). correlates r.client_order_id o.correlation_id) orders)
        (by_id saved orders) in
    ask lookup r (first_of current (saved_payload saved))

-- Without an order only an intent that was never attempted is closed; a sent one stays unknown.
unfoldable pub reconcile_missing : IntentRow → Db → Db
reconcile_missing r db =
    if is_pending_send r.state
      && not (any (λ (a : AttemptRow). str_eq a.intent_id r.intent_id) db.attempts)
    then set_intent_state r.intent_id aborted db
    else db

abbrev pub trade_fill : ℕ → IntentRow → String → Trade → Fill
trade_fill now r order_id t = record {
  trade_id = t.trade_id;
  order_id = order_id;
  security_id = r.security_id;
  quantity = t.quantity;
  price = t.price;
  fees = trade_fees t;
  occurred_at = now;
}

abbrev pub state_of_order : OrderState → IntentState
state_of_order traded = traded
state_of_order cancelled = cancelled
state_of_order rejected = rejected
state_of_order expired = expired
state_of_order (working s) = send_unknown

abbrev pub outcome : IntentRow → OrderState → ℕ → IntentState
outcome r state done = if done == r.quantity then filled else state_of_order state

abbrev pub is_done : OrderState → ℕ → ℕ → Bool
is_done state expected done = is_terminal state && leb expected done

-- What the stored order and the recorded fills say of the intent.
abbrev pub settle_stored : IntentRow → BrokerOrder → Option OrderRow → Db → Result Db
settle_stored r o none db = err "'NoneType' object is not subscriptable"
settle_stored r o (some stored) db =
    let done = filled_quantity r.intent_id db.fills in
    let expected = expected_quantity o.filled_quantity stored.state r.quantity done in
    do
      raise_if (ltb r.quantity expected || ltb r.quantity done)
          "broker fill exceeds submitted quantity"
      ok (
          if is_done stored.state expected done
          then set_intent_state r.intent_id (outcome r stored.state done) db
          else db)

unfoldable pub settle_intent : IntentRow → BrokerOrder → Db → Result Db
settle_intent r o db = settle_stored r o (find_order o.order_id db.orders) db
