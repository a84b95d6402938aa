-- ===== src/Orders/Kept.antt =====
-- What the ledger calls of a reconciliation of dhan_cas_bot/orders.py may do to the state of an intent:
-- nothing, or reopen it; and that recording trades leaves the orders alone.

use dhan_bot.Orders.Resolve.{trade_fill}
use dhan_bot.Orders.Action.{Account, >>=-ok, update-ok, refuse_if, lift, update, ◌>>=◌}
use dhan_bot.Orders.Reconcile.{record_trades, record_trade}
use dhan_bot.Orders.Trades.{
  corroborate, confirm_historical_order, Trade, History, add_history, known_fills, keep_charges,
  is_empty, no_history, expected_quantity, foreign_trade,
}
use dhan_bot.Ledger.Recorded.{
  Recorded, fresh, new_fill-ok, again, renamed, record_fill_once-cases, orders-fill,
}
use dhan_bot.Domain.{Fill, check_fill}
use dhan_bot.Orders.States.{state_of, state_of-reopen_rows}
use dhan_bot.Ledger.{
  reopen_recovery_closed, record_order_charges, record_order, Db, OrderState, BrokerOrder,
  record_fill_once, sent, OrderRow, put_order, IntentRow, units, is_terminal, turnover_of,
}
use dhan_bot.Prelude.{
  ◌≡◌, ◌⊎◌, inl, inr, arith, not, ◌||◌, ◌==◌, leb, [], ◌∷◌, str_eq, ℕ, sym, String, ℕ, Bool, some,
  ok, ap, ◌∙◌, List, ◌∷◌, Bool-cases, >>=-eq-ok, str_eq, ◌||◌, leb, ◌==◌,
}

-- The state of an intent is as it was, or the intent was reopened.
abbrev pub Moves : String → Db → Db → Type 0
Moves id db db' =
    (state_of id db'.intents ≡ state_of id db.intents) ⊎ (state_of id db'.intents ≡ some sent)

pub Moves-trans : (id : String) (a b c : Db) → Moves id a b → Moves id b c → Moves id a c
Moves-trans id a b c (inl e) (inl f) = inl (f ∙ e)
Moves-trans id a b c (inr e) (inl f) = inr (f ∙ e)
Moves-trans id a b c h (inr f) = inr f

reopen-Moves : (id j why : String) (db : Db) → Moves id db (reopen_recovery_closed j why db)
unfolding reopen_recovery_closed
reopen-Moves id j why db = ground (arith, state_of-reopen_rows id j db.intents)

pub record_order-Moves :
    (id o i a : String) (t : OrderState) (p : BrokerOrder) (db db' : Db)
    → record_order o i a t p db ≡ ok db'
    → Moves id db db'
unfolding record_order
record_order-Moves id o i a t p db db' h =
    let row : OrderRow = record {
      order_id = o;
      intent_id = i;
      broker_account = a;
      state = t;
      payload = p;
    } in
    ground (
      arith,
      reopen-Moves id i "LATE_BROKER_ORDER" (record db { orders = put_order row db.orders }),
    )

-- Moves, with the orders kept.
abbrev pub Keeps : String → Db → Db → Type 0
Keeps id db db' = Moves id db db' × (db'.orders ≡ db.orders)

record_fill-Keeps :
    (id i : String) (x : Fill) (db : Db) (b : Bool) (db' : Db)
    → record_fill_once x i db ≡ ok (b, db')
    → Keeps id db db'
record_fill-Keeps id i x db b db' h =
    let outcome = record_fill_once-cases x i db b db' h in
    (moved outcome, orders-fill x i db outcome)
  where
    moved : Recorded x i db b db' → Moves id db db'
    moved (fresh n e) =
        let (_, _, _, _, _, intents) = new_fill-ok x i db b db' e in
        rw intents (reopen-Moves id i "LATE_BROKER_FILL" db)
    moved (again old out e f k) = inl (ap (λ (d : Db). state_of id d.intents) k)
    moved (renamed old out e f g k) = inl (ap (λ (d : Db). state_of id d.intents) k)

charges-Keeps :
    (o i : String) (now fees : ℕ) (complete : Bool) (db db' : Db)
    → record_order_charges now o i fees complete db ≡ ok db'
    → (db'.intents ≡ db.intents) × (db'.orders ≡ db.orders)
unfolding record_order_charges
charges-Keeps o i now fees complete db db' h = (ground arith, ground arith)

keep_charges-Keeps :
    (now : ℕ) (r : IntentRow) (o : String) (t : History) (db : Db) (b : Bool) (db' : Db)
    → keep_charges now r o t db ≡ ok (b, db')
    → (db'.intents ≡ db.intents) × (db'.orders ≡ db.orders)
keep_charges-Keeps now r o t db b db' h = elim (Bool-cases t.has_charges) [
  | inl some_charges ↦
      let (out, e, k) =
        >>=-eq-ok (record_order_charges now o r.intent_id t.fees t.complete db) _
          (rw some_charges at h) in
      let kept = charges-Keeps o r.intent_id now t.fees t.complete db out e in
      (ground (arith, kept.0, k), ground (arith, kept.1, k))
  | inr no_charges ↦ let k = rw no_charges at h in (ground (arith, k), ground (arith, k))
]

corroborate-Keeps :
    (now : ℕ) (account : String) (r : IntentRow) (o : String) (ts : List Trade) (db : Db) (b : Bool)
    (db' : Db)
    → corroborate now account r o ts db ≡ ok (b, db')
    → (db'.intents ≡ db.intents) × (db'.orders ≡ db.orders)
unfolding corroborate
corroborate-Keeps now account r o ts db b db' h =
    let (t, _, k) = >>=-eq-ok (add_history account r no_history ts) _ h in
    let known = known_fills r o db in
    elim (Bool-cases (not (units known == t.quantity) || not (turnover_of known == t.turnover))) [
      | inl apart ↦ absurd (let e = rw apart at k in ground (arith, e))
      | inr alike ↦ keep_charges-Keeps now r o t db b db' (rw alike at k)
    ]

pub confirm-Keeps :
    (id : String) (now : ℕ) (account : String) (r : IntentRow) (o : BrokerOrder) (ts : List Trade)
    (db : Db) (b : Bool) (db' : Db)
    → confirm_historical_order now account r o ts db ≡ ok (b, db')
    → Keeps id db db'
unfolding confirm_historical_order
confirm-Keeps id now account r o ts db b db' h =
    let quantity = units (known_fills r o.order_id db) in
    elim (Bool-cases (is_empty ts || not (is_terminal o.status))) [
      | inl skipped ↦ let k = rw skipped at h in (ground (arith, k), ground (arith, k))
      | inr read ↦
          elim (Bool-cases (
            leb quantity 0
            || not
                (quantity == expected_quantity o.filled_quantity o.status r.quantity quantity))) [
                  | inl skipped ↦
                      let k = rw skipped at (rw read at h) in (ground (arith, k), ground (arith, k))
                  | inr read_all ↦
                      let kept =
                        corroborate-Keeps now account r o.order_id ts db b db'
                          (rw read_all at (rw read at h)) in
                      (inl (ap (state_of id) kept.0), kept.1)
                ]
    ]

record_trade-Keeps :
    (id : String) (now : ℕ) (account : String) (r : IntentRow) (o : String) (t : Trade)
    (s : Account) (b : Bool) (s' : Account)
    → record_trade now account r o t s ≡ (ok b, s')
    → Keeps id s.db s'.db
record_trade-Keeps id now account r o t s b s' h =
    let store = λ (x : Fill). update (record_fill_once x r.intent_id) in
    let (_, s1, e, k) =
      >>=-ok (refuse_if (foreign_trade account r t) "foreign or contradictory broker fill")
        (λ _. lift (check_fill (trade_fill now r o t)) >>= store) s h in
    let (x, s2, f, l) = >>=-ok (lift (check_fill (trade_fill now r o t))) store s1 k in
    let kept =
      record_fill-Keeps id r.intent_id x s2.db b s'.db
        (update-ok s2 (record_fill_once x r.intent_id) l) in
    let same : s ≡ s2 = ap (λ p. p.1) e ∙ ap (λ p. p.1) f in rw same kept

pub record_trades-Keeps :
    (id : String) (now : ℕ) (account : String) (r : IntentRow) (o : String) (ts : List Trade)
    (s : Account) (u : Unit {0}) (s' : Account)
    → record_trades now account r o ts s ≡ (ok u, s')
    → Keeps id s.db s'.db
unfolding record_trades
record_trades-Keeps id now account r o [] s u s' h =
    let same : s ≡ s' = ap (λ p. p.1) h in
    (
      inl (ap (λ (a : Account). state_of id a.db.intents) (sym same)),
      ap (λ (a : Account). a.db.orders) (sym same),
    )
record_trades-Keeps id now account r o (t ∷ ts) s u s' h = elim (Bool-cases (str_eq t.order_id o)) [
  | inr other ↦ record_trades-Keeps id now account r o ts s u s' (rw other at h)
  | inl same ↦
      let (b, s1, e, k) =
        >>=-ok (record_trade now account r o t) (λ _. record_trades now account r o ts) s
          (rw same at h) in
      let first = record_trade-Keeps id now account r o t s b s1 e in
      let rest = record_trades-Keeps id now account r o ts s1 u s' k in
      (Moves-trans id s.db s1.db s'.db first.0 rest.0, rest.1 ∙ first.1)
]
