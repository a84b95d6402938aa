-- ===== src/Ledger/Evidence.antt =====
-- What the broker has said stays said: orders, charges and frozen references through any history.
use dhan_bot.Domain.{Fill}
use dhan_bot.Prelude.{
  ◌≡◌, refl, arith, String, str_eq, Bool, true, false, Option, none, some, List, [], ◌∷◌, ◌++◌,
  if◌then◌else◌, not, select, ok, err, eq_iff, Bool-cases, inl, inr, Result, ◌>>=◌, ◌∙◌, ◌||◌,
  Option-cases,
}
use dhan_bot.Ledger.Tables.{OrderState, BrokerOrder, OrderRow, Db, find_order, is_terminal}
use dhan_bot.Ledger.Keyed.{freeze_reference, set_counter, put_metadata, observe}
use dhan_bot.Ledger.Recorded.{record_fill_once-cases, orders-reopen, orders-fill}
use dhan_bot.Ledger.Intents.{create_intent, record_attempt, set_intent_state, incident}
use dhan_bot.Ledger.History.{
  Call, create, attempt, set_state, order, fill, charges, reference, count, note, store, sample,
  drop_flag, after, apply, run, run_induction,
}
use dhan_bot.Ledger.Orders.{
  put_order, record_fill_once, record_order_charges, record_order, order_stale, order_conflict,
}

find_order-select :
    (id k : String) (rows : List OrderRow)
    → find_order id (select (λ (r : OrderRow). not (str_eq r.order_id k)) rows)
      ≡ (if str_eq k id then none else find_order id rows)
unfolding find_order
find_order-select id k [] = ground arith
find_order-select id k (r ∷ rows) =
    ground
      (arith, find_order-select id k rows, eq_iff r.order_id k, eq_iff k id, eq_iff r.order_id id)

abbrev or_row : Option OrderRow → Option OrderRow → Option OrderRow
or_row none o = o
or_row (some r) o = some r

find_order-append :
    (id : String) (rows : List OrderRow) (row : OrderRow)
    → find_order id (rows ++ row ∷ [])
      ≡ or_row (find_order id rows) (if str_eq row.order_id id then some row else none)
unfolding find_order
find_order-append id [] row = refl
find_order-append id (r ∷ rows) row = ground (arith, find_order-append id rows row)

-- A replaced row is the one that is found, and no other row is touched.
pub find_order-put_order :
    (id : String) (row : OrderRow) (rows : List OrderRow)
    → find_order id (put_order row rows)
      ≡ (if str_eq row.order_id id then some row else find_order id rows)
unfolding put_order
find_order-put_order id row rows =
    rw (find_order-append id _ row) (rw (find_order-select id row.order_id rows) (ground arith))

-- The order of this identity is still stored for the same intent and account, and is terminal if
-- the given one is.
abbrev pub Standing : OrderRow → Db → Type 0
Standing o db =
    (r : OrderRow) × (find_order o.order_id db.orders ≡ some r)
    × (r.intent_id ≡ o.intent_id)
    × (r.broker_account ≡ o.broker_account)
    × (is_terminal o.state ≡ true → is_terminal r.state ≡ true)

-- A report that is neither refused nor stale agrees with the stored row.
admitted_report :
    (r : OrderRow) (i a : String) (s : OrderState) (p : BrokerOrder)
    → order_conflict (some r) i a ≡ false
    → order_stale (some r) s p ≡ false
    → (i ≡ r.intent_id)
      × (a ≡ r.broker_account)
      × (is_terminal r.state ≡ true → is_terminal s ≡ true)
admitted_report r i a s p h k = (
  ground (arith, eq_iff r.intent_id i),
  ground (arith, eq_iff r.broker_account a),
  λ t. terminal_report (is_terminal s) _ (rw t at k),
)
  where
    terminal_report : (b c : Bool) → (not b || c) ≡ false → b ≡ true
    terminal_report b c e = ground arith

-- The row that a report leaves under an identity that has a row.
record_order-found :
    (o : OrderRow) (id i a : String) (s : OrderState) (p : BrokerOrder) (db : Db)
    → Standing o db
    → Standing o (after (record_order id i a s p db) db)
unfolding record_order
record_order-found o id i a s p db (r, found, intent, account, lasting) =
    let old = find_order id db.orders in
    let row : OrderRow = record {
      order_id = id;
      intent_id = i;
      broker_account = a;
      state = s;
      payload = p;
    } in
    let stored = record db { orders = put_order row db.orders } in
    elim (Bool-cases (order_conflict old i a)) [
      | inl refused ↦ rw refused (r, found, intent, account, lasting)
      | inr admitted ↦ elim (Bool-cases (order_stale old s p)) [
        | inl stale ↦ rw (admitted, stale) (r, found, intent, account, lasting)
        | inr news ↦
            rw (admitted, news)
              (rw (orders-reopen i "LATE_BROKER_ORDER" stored) (
                rw (find_order-put_order o.order_id row db.orders)
                  (elim (Bool-cases (str_eq id o.order_id)) [
                    | inl same ↦
                        let e : id ≡ o.order_id = (eq_iff id o.order_id).0 same in
                        let known : old ≡ some r = rw (← e) at found in
                        let (own, holder, ends) =
                          admitted_report r i a s p (rw known at admitted) (rw known at news) in
                        rw same (row, refl, own ∙ intent, holder ∙ account, λ t. ends (lasting t))
                    | inr other ↦ rw other (r, found, intent, account, lasting)
                  ])))
      ]
    ]

-- An accepted report is stored under its identity, for the intent that it was reported for.
pub record_order-stored :
    (id i a : String) (s : OrderState) (p : BrokerOrder) (db db' : Db)
    → record_order id i a s p db ≡ ok db'
    → (row : OrderRow) × (find_order id db'.orders ≡ some row) × (row.intent_id ≡ i)
unfolding record_order
record_order-stored id i a s p db db' h = elim (Option-cases (find_order id db.orders)) [
  | inl none_yet ↦
      let row : OrderRow = record {
        order_id = id;
        intent_id = i;
        broker_account = a;
        state = s;
        payload = p;
      } in
      let stored = record db { orders = put_order row db.orders } in
      (
        row,
        ground (
          arith,
          orders-reopen i "LATE_BROKER_ORDER" stored,
          find_order-put_order id row db.orders,
          eq_iff id id,
        ),
        refl,
      )
  | inr (old, found) ↦ elim (Bool-cases (order_stale (some old) s p)) [
    | inl stale ↦ (old, ground arith, ground (arith, eq_iff old.intent_id i))
    | inr news ↦
        let row : OrderRow = record {
          order_id = id;
          intent_id = i;
          broker_account = a;
          state = s;
          payload = p;
        } in
        let stored = record db { orders = put_order row db.orders } in
        (
          row,
          ground (
            arith,
            orders-reopen i "LATE_BROKER_ORDER" stored,
            find_order-put_order id row db.orders,
            eq_iff id id,
          ),
          refl,
        )
  ]
]

fill-Standing :
    (o : OrderRow) (x : Fill) (i : String) (db : Db) (r : Result (Bool × Db))
    → record_fill_once x i db ≡ r
    → Standing o db
    → Standing o (after (r >>= drop_flag) db)
fill-Standing o x i db (ok (b, db')) e h =
    rw (orders-fill x i db (record_fill_once-cases x i db b db' e)) h
fill-Standing o x i db (err m) e h = h

apply-Standing :
    (o : OrderRow) (c : Call) (db : Db) → Standing o db → Standing o (after (apply c db) db)
unfolding apply create_intent record_attempt set_intent_state incident freeze_reference set_counter
    put_metadata observe record_order_charges
apply-Standing o (create x v) db h = ground arith
apply-Standing o (attempt now a i s) db h = h
apply-Standing o (set_state i s) db h = h
apply-Standing o (order id i a s p) db h = record_order-found o id i a s p db h
apply-Standing o (fill x i) db h = fill-Standing o x i db (record_fill_once x i db) refl h
apply-Standing o (charges now id i v c) db h = ground arith
apply-Standing o (reference s p) db h = ground arith
apply-Standing o (count n v) db h = h
apply-Standing o (note i k) db h = h
apply-Standing o (store k v) db h = h
apply-Standing o (sample i p) db h = h

-- Once an order is stored as terminal, every history of ledger calls, refused and late reports
-- included, leaves it stored under its identity, terminal, for the same intent and account.
pub run-keeps-terminal :
    (calls : List Call) (o : OrderRow) (db : Db)
    → find_order o.order_id db.orders ≡ some o
    → is_terminal o.state ≡ true
    → (r : OrderRow) × (find_order o.order_id (run calls db).orders ≡ some r)
      × (r.intent_id ≡ o.intent_id)
      × (r.broker_account ≡ o.broker_account)
      × (is_terminal r.state ≡ true)
run-keeps-terminal calls o db found ended =
    let (r, f, i, a, t) =
      run_induction (Standing o) (apply-Standing o) calls db (o, found, refl, refl, λ e. e) in
    (r, f, i, a, t ended)
