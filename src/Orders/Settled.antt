-- ===== src/Orders/Settled.antt =====
-- What a reconciliation of dhan_cas_bot/orders.py may conclude about an intent from the broker's
-- evidence.
use dhan_bot.Orders.Kept.{
  Moves, record_order-Moves, confirm-Keeps, Moves-trans, record_trades-Keeps,
}
use dhan_bot.Ledger.Evidence.{record_order-stored}
use dhan_bot.Orders.Resolve.{settle_intent, settle_stored, outcome, is_done}
use dhan_bot.Orders.Action.{
  Account, >>=-ok, update-ok, refuse_if, update, ◌>>=◌, Action, ◌>>◌, commit, commit-ok,
}
use dhan_bot.Orders.Reconcile.{record_trades, reconcile_order}
use dhan_bot.Orders.Trades.{confirm_historical_order, Trade, expected_quantity, foreign_order}
use dhan_bot.Domain.{is_none}
use dhan_bot.Orders.States.{state_of, state_of-put_state}
use dhan_bot.Ledger.{
  record_order, Db, BrokerOrder, OrderRow, IntentRow, is_terminal, filled_quantity,
  set_intent_state, find_order, put_state,
}
use dhan_bot.Prelude.{
  ◌≡◌, ◌⊎◌, inl, inr, refl, arith, ◌||◌, [], str_eq, true, false, ℕ, sym, String, ℕ, Bool, some, ok,
  ap, ◌∙◌, List, Bool-cases, str_eq, ◌||◌, ◌≤◌, ltb, ◌++◌, if◌then◌else◌, select, subst, ◌<◌,
}

-- What the evidence in the tables makes of the intent's state.
abbrev pub Concluded : IntentRow → BrokerOrder → OrderRow → Db → Db → Type 0
Concluded r o stored db db' =
    let done = filled_quantity r.intent_id db'.fills in
    let expected = expected_quantity o.filled_quantity stored.state r.quantity done in
    (done ≤ r.quantity)
    × (expected ≤ r.quantity)
    × (is_terminal stored.state ≡ true
        → expected ≤ done
        → state_of r.intent_id db'.intents ≡ some (outcome r stored.state done))
    × ((is_terminal stored.state ≡ false) ⊎ (done < expected) → Moves r.intent_id db db')

settle_stored-Concluded :
    (r : IntentRow) (o : BrokerOrder) (stored : OrderRow) (db db' : Db)
    → settle_stored r o (some stored) db ≡ ok db'
    → is_none (state_of r.intent_id db.intents) ≡ false
    → Concluded r o stored db db' × (db'.orders ≡ db.orders)
unfolding set_intent_state
settle_stored-Concluded r o stored db db' h exists =
    let done = filled_quantity r.intent_id db.fills in
    let expected = expected_quantity o.filled_quantity stored.state r.quantity done in
    elim (Bool-cases (ltb r.quantity expected || ltb r.quantity done)) [
      | inl over ↦ absurd (let e = rw over at h in ground (arith, e))
      | inr within ↦
          let k = rw within at h in
          elim (Bool-cases (is_done stored.state expected done)) [
            | inl settled ↦
                let written = put_state r.intent_id (outcome r stored.state done) db.intents in
                let e : record db { intents = written } ≡ db' = ground (arith, rw settled at k) in
                let now_is =
                  state_of-put_state r.intent_id (outcome r stored.state done) db.intents exists in
                rw (← e)
                  ((ground arith, ground arith, λ t l. now_is, λ f. absurd (ground arith)), refl)
            | inr open_still ↦
                let e : db ≡ db' = ground (arith, rw open_still at k) in
                rw (← e)
                  ((ground arith, ground arith, λ t l. absurd (ground arith), λ f. inl refl), refl)
          ]
    ]

settle_intent-Concluded :
    (r : IntentRow) (o : BrokerOrder) (stored : OrderRow) (db db' : Db)
    → find_order o.order_id db.orders ≡ some stored
    → settle_intent r o db ≡ ok db'
    → is_none (state_of r.intent_id db.intents) ≡ false
    → Concluded r o stored db db' × (db'.orders ≡ db.orders)
unfolding settle_intent
settle_intent-Concluded r o stored db db' found h exists =
    settle_stored-Concluded r o stored db db' (rw found at h) exists

exists_after :
    (id : String) (a b : Db)
    → Moves id a b
    → is_none (state_of id a.intents) ≡ false
    → is_none (state_of id b.intents) ≡ false
exists_after id a b (inl e) h = rw e h
exists_after id a b (inr e) h = rw e

-- The part of a reconciliation after the order is stored.
abbrev after_order :
    ℕ → String → IntentRow → BrokerOrder → List Trade → List Trade → Action (Unit {0})
after_order now account r o trades past = do
  confirmed ← update (confirm_historical_order now account r o past)
  record_trades now account r o.order_id (trades ++ (if confirmed then [] else past))
  commit (settle_intent r o)

after_order-Concluded :
    (now : ℕ) (account : String) (r : IntentRow) (o : BrokerOrder) (trades past : List Trade)
    (stored : OrderRow) (s : Account) (u : Unit {0}) (s' : Account)
    → after_order now account r o trades past s ≡ (ok u, s')
    → find_order o.order_id s.db.orders ≡ some stored
    → is_none (state_of r.intent_id s.db.intents) ≡ false
    → Concluded r o stored s.db s'.db × (s'.db.orders ≡ s.db.orders)
after_order-Concluded now account r o trades past stored s u s' h found exists =
    let id = r.intent_id in
    let confirm = confirm_historical_order now account r o past in
    let use_trades =
      λ (c : Bool). record_trades now account r o.order_id (trades ++ (if c then [] else past)) in
    let (c, s1, e, k) =
      >>=-ok (update confirm) (λ c. use_trades c >> commit (settle_intent r o)) s h in
    let (v, s2, f, l) = >>=-ok (use_trades c) (λ _. commit (settle_intent r o)) s1 k in
    let first = confirm-Keeps id now account r o past s.db c s1.db (update-ok s confirm e) in
    let second =
      record_trades-Keeps id now account r o.order_id (trades ++ (if c then [] else past)) s1 v s2
        f in
    let moved = Moves-trans id s.db s1.db s2.db first.0 second.0 in
    let same = second.1 ∙ first.1 in
    let ((a, b, settled, otherwise), orders) =
      settle_intent-Concluded r o stored s2.db s'.db (rw same found)
        (commit-ok s2 (settle_intent r o) l) (exists_after id s.db s2.db moved exists) in
    (
      (a, b, settled, λ open_still. Moves-trans id s.db s2.db s'.db moved (otherwise open_still)),
      orders ∙ same,
    )

pub reconcile_order-Concluded :
    (now : ℕ) (account : String) (r : IntentRow) (o : BrokerOrder) (trades history : List Trade)
    (s : Account) (u : Unit {0}) (s' : Account)
    → reconcile_order now account r o trades history s ≡ (ok u, s')
    → is_none (state_of r.intent_id s.db.intents) ≡ false
    → (stored : OrderRow) × (find_order o.order_id s'.db.orders ≡ some stored)
      × (stored.intent_id ≡ r.intent_id)
      × Concluded r o stored s.db s'.db
unfolding reconcile_order
reconcile_order-Concluded now account r o trades history s u s' h exists =
    let id = r.intent_id in
    let past = select (λ (t : Trade). str_eq t.order_id o.order_id) history in
    let store = record_order o.order_id id account o.status o in
    let rest = after_order now account r o trades past in
    let own = refuse_if (foreign_order account r o) "foreign or contradictory broker order" in
    let (_, s1, e, k) =
      >>=-ok (refuse_if (str_eq o.order_id "") "broker order has no identity")
        (λ _. own >> (commit store >> rest)) s h in
    let (_, s2, f, l) = >>=-ok own (λ _. commit store >> rest) s1 k in
    let (_, s3, g, m) = >>=-ok (commit store) (λ _. rest) s2 l in
    let same : s ≡ s2 = ap (λ p. p.1) e ∙ ap (λ p. p.1) f in
    let written = commit-ok s2 store g in
    let moved = record_order-Moves id o.order_id id account o.status o s2.db s3.db written in
    let (stored, found, owner) =
      record_order-stored o.order_id id account o.status o s2.db s3.db written in
    let there =
      exists_after id s2.db s3.db moved
        (subst (λ (a : Account). is_none (state_of id a.db.intents) ≡ false) same exists) in
    let ((a, b, settled, otherwise), orders) =
      after_order-Concluded now account r o trades past stored s3 u s' m found there in
    (
      stored,
      ap (find_order o.order_id) orders ∙ found,
      owner,
      (
        a,
        b,
        settled,
        λ open_still.
            subst (λ (a : Account). Moves id a.db s'.db) (sym same)
              (Moves-trans id s2.db s3.db s'.db moved (otherwise open_still)),
      ),
    )
