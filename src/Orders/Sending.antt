-- ===== src/Orders/Sending.antt =====
-- How the part of a submission of dhan_cas_bot/orders.py after its checks can end.

use dhan_bot.Orders.States.{state_of, state_of-put_state, state_of-new_row, state_of-reopened}
use dhan_bot.Orders.Rate.{rate_attempt}
use dhan_bot.Ledger.Evidence.{record_order-stored}
use dhan_bot.Orders.Action.{◌>>◌, Account, commit-cases, pure, modify, account_changed}
use dhan_bot.Prelude.{
  ℕ, ◌≡◌, refl, arith, String, false, none, some, Option, Result, ok, err, ◌≢◌, suc, ◌∙◌, ◌⊎◌,
  Option, Bool-cases, str_eq, inr, inl, eq_iff,
}
use dhan_bot.Domain.{Intent, is_none}
use dhan_bot.Ledger.{
  Db, create_intent, sent, record_attempt, aborted, BrokerOrder, send_unknown, OrderRow, find_order,
  accepted, record_order, OrderState, put_order, set_intent_state, started,
}
use dhan_bot.Orders.Submit.{
  Reply, failed, ambiguous, placed, conclude, dispatch, rated, rate_or_abort,
}

-- How a dispatch that began at `before` can end.
pub data Dispatched (account : String) (x : Intent) (reply : Reply) (before : Account)
    : Result String → Account → Type 0 where
  -- the intent could not be created: nothing is written
  rejected :
      {r : Result String} {s : Account} (e : String)
      → r ≡ err e
      → s ≡ before
      → Dispatched account x reply before r s
  -- the rate windows have no room: the intent is aborted, and nothing is sent
  throttled :
      {r : Result String} {s : Account} (e : String)
      → r ≡ err e
      → state_of x.intent_id s.db.intents ≡ some aborted
      → s.db.attempts ≡ before.db.attempts
      → s.db.orders ≡ before.db.orders
      → Dispatched account x reply before r s
  -- no usable answer: the order may exist, and the intent says so
  unanswered :
      {r : Result String} {s : Account} (e : String)
      → r ≡ err e
      → ((o : BrokerOrder) → reply ≢ placed o)
      → state_of x.intent_id s.db.intents ≡ some send_unknown
      → s.db.orders ≡ before.db.orders
      → Dispatched account x reply before r s
  -- the broker's order was stored already, for another intent or account: the orders stay as they
  -- were
  conflicting :
      {r : Result String} {s : Account} (e : String) (o : BrokerOrder)
      → r ≡ err e
      → reply ≡ placed o
      → state_of x.intent_id s.db.intents ≡ some sent
      → s.db.orders ≡ before.db.orders
      → (row : OrderRow) → find_order o.order_id before.db.orders ≡ some row
      → (row.intent_id ≢ x.intent_id) ⊎ (row.broker_account ≢ account)
      → Dispatched account x reply before r s
  -- the order is placed and stored for this intent
  done :
      {r : Result String} {s : Account} (o : BrokerOrder)
      → r ≡ ok o.order_id
      → reply ≡ placed o
      → state_of x.intent_id s.db.intents ≡ some sent
      → (row : OrderRow) → find_order o.order_id s.db.orders ≡ some row
      → row.intent_id ≡ x.intent_id
      → Dispatched account x reply before r s

record_order-sent :
    (id i a k : String) (t : OrderState) (p : BrokerOrder) (db db' : Db)
    → record_order id i a t p db ≡ ok db'
    → state_of k db.intents ≡ some sent
    → state_of k db'.intents ≡ some sent
unfolding record_order
record_order-sent id i a k t p db db' h e =
    let row : OrderRow = record {
      order_id = id;
      intent_id = i;
      broker_account = a;
      state = t;
      payload = p;
    } in
    let stored = record db { orders = put_order row db.orders } in
    ground (arith, state_of-reopened k i "LATE_BROKER_ORDER" stored e)

record_order-conflict :
    (id i a : String) (t : OrderState) (p : BrokerOrder) (db : Db) (m : String)
    → record_order id i a t p db ≡ err m
    → (row : OrderRow) × (find_order id db.orders ≡ some row)
      × ((row.intent_id ≢ i) ⊎ (row.broker_account ≢ a))
unfolding record_order
record_order-conflict id i a t p db m h = conflict-other (find_order id db.orders) refl
  where
    conflict-other :
        (old : Option OrderRow)
        → find_order id db.orders ≡ old
        → (row : OrderRow) × (find_order id db.orders ≡ some row)
          × ((row.intent_id ≢ i) ⊎ (row.broker_account ≢ a))
    conflict-other none e = absurd (ground (arith, h, e))
    conflict-other (some row) e = elim (Bool-cases (str_eq row.intent_id i)) [
      | inr other ↦ (row, e, inl (λ k. ground (arith, other, eq_iff row.intent_id i, k)))
      | inl same ↦ elim (Bool-cases (str_eq row.broker_account a)) [
        | inr foreign ↦ (row, e, inr (λ k. ground (arith, foreign, eq_iff row.broker_account a, k)))
        | inl own ↦ absurd (ground (arith, h, e, same, own))
      ]
    ]

-- After the attempt is recorded as started.
conclude-Dispatched :
    (now : ℕ) (x : Intent) (account attempt_id : String) (reply : Reply) (before s : Account)
    → is_none (state_of x.intent_id s.db.intents) ≡ false
    → s.db.orders ≡ before.db.orders
    → let (r, s') = conclude now x account attempt_id reply s in
      Dispatched account x reply before r s'
unfolding record_attempt
conclude-Dispatched now x account attempt_id (failed e) before s exists orders =
    unanswered e refl (λ o h. ground arith)
      (state_of-put_state x.intent_id send_unknown s.db.intents exists) orders
conclude-Dispatched now x account attempt_id ambiguous before s exists orders =
    unanswered _ refl (λ o h. ground arith)
      (state_of-put_state x.intent_id send_unknown s.db.intents exists) orders
conclude-Dispatched now x account attempt_id (placed o) before s exists orders =
    let recorded = record_attempt now attempt_id x.intent_id accepted s.db in
    let is_sent = state_of-put_state x.intent_id sent s.db.intents exists in
    commit-cases (λ r s'. Dispatched account x (placed o) before r s')
      (record_order o.order_id x.intent_id account o.status o) (pure o.order_id)
      (record { db = recorded; revision = suc s.revision })
      (λ db' e.
        let (row, found, own) =
          record_order-stored o.order_id x.intent_id account o.status o recorded db' e in
        done o refl refl
          (record_order-sent o.order_id x.intent_id account x.intent_id o.status o recorded db' e
            is_sent)
          row found own)
      (λ m e.
        let (row, found, other) =
          record_order-conflict o.order_id x.intent_id account o.status o recorded m e in
        conflicting m o refl refl is_sent orders row (rw (← orders) found) other)

rate_attempt-keeps :
    (now : ℕ) (x : Intent) (id : String) (db : Db) {db' : Db}
    → rate_attempt now x id db ≡ ok db'
    → (db'.intents ≡ db.intents) × (db'.attempts ≡ db.attempts) × (db'.orders ≡ db.orders)
unfolding rate_attempt
rate_attempt-keeps now x id db h = (ground arith, ground arith, ground arith)

create_intent-exists :
    (x : Intent) (v : ℕ) (db : Db) {db' : Db}
    → create_intent x v db ≡ ok db'
    → (is_none (state_of x.intent_id db'.intents) ≡ false)
      × (db'.attempts ≡ db.attempts)
      × (db'.orders ≡ db.orders)
unfolding create_intent
create_intent-exists x v db h =
    (ground (arith, state_of-new_row x v db.intents), ground arith, ground arith)

-- After the intent is created.
rated-Dispatched :
    (now : ℕ) (x : Intent) (account attempt_id : String) (reply : Reply) (before s : Account)
    → is_none (state_of x.intent_id s.db.intents) ≡ false
    → s.db.attempts ≡ before.db.attempts
    → s.db.orders ≡ before.db.orders
    → (q : Result Db) → rate_attempt now x attempt_id s.db ≡ q
    → let (r, s') =
        (do
          (λ (t : Account). rated x.intent_id q t)
          modify (record_attempt now attempt_id x.intent_id started)
          account_changed
          conclude now x account attempt_id reply)
          s in
      Dispatched account x reply before r s'
unfolding record_attempt set_intent_state
rated-Dispatched now x account attempt_id reply before s exists attempts orders (ok db) e =
    let (intents, _, same) = rate_attempt-keeps now x attempt_id s.db e in
    let opened = state_of-put_state x.intent_id send_unknown db.intents (rw intents exists) in
    conclude-Dispatched now x account attempt_id reply before _ (rw opened) (same ∙ orders)
rated-Dispatched now x account attempt_id reply before s exists attempts orders (err m) e =
    throttled m refl (state_of-put_state x.intent_id aborted s.db.intents exists) attempts orders

pub dispatch-Dispatched :
    (now : ℕ) (account : String) (x : Intent) (reserved : ℕ) (attempt_id : String) (reply : Reply)
    (s : Account)
    → let (r, s') = dispatch now account x reserved attempt_id reply s in
      Dispatched account x reply s r s'
unfolding dispatch
dispatch-Dispatched now account x reserved attempt_id reply s =
    commit-cases (λ r s'. Dispatched account x reply s r s') (create_intent x reserved)
      (do
        rate_or_abort now x attempt_id
        modify (record_attempt now attempt_id x.intent_id started)
        account_changed
        conclude now x account attempt_id reply)
      s
      (λ db e.
        let (exists, attempts, orders) = create_intent-exists x reserved s.db e in
        rated-Dispatched now x account attempt_id reply s (record s { db = db }) exists attempts
          orders (rate_attempt now x attempt_id db) refl)
      (λ m e. rejected m refl refl)
