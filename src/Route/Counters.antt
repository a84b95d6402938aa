-- ===== src/Route/Counters.antt =====
-- A submission leaves the counters alone, however it ends.
use dhan_bot.Risk.{worst_case_entry_cash, default_fees, reserve_cash}
use dhan_bot.Prelude.{
  ◌≡◌, refl, >>=-eq-ok, ◌+◌, ◌∙◌, arith, ℕ, String, Bool, List, Result, ok, err, not, ltb, suc,
  ltb_ℤ, pos,
}
use dhan_bot.Domain.{Intent, Side, buy, sell}
use dhan_bot.Ledger.{
  Db, create_intent, set_intent_state, record_attempt, record_order, IntentState, AttemptState,
  BrokerOrder, OrderState, started, unknown, accepted, aborted, reopen_recovery_closed,
}
use dhan_bot.Orders.{
  order_request, rate_attempt, open_holdings, exit_reserve, pending_buys, child_size, check_windows,
  windows, check_reservation, check_holding, rate_or_abort, rated, conclude, check_submission,
  dispatch, submit, Reply, failed, ambiguous, placed, Position, pending_sales, held_quantity,
}
use dhan_bot.Orders.Action.{
  Action, Account, ◌>>=◌, ◌>>◌, commit, keep_or_raise, lift, refuse_if, account_changed, gets,
  modify, pure,
}

module _ {A : Type 0} where
  abbrev pub KeepsCounters : Action A → Type 0
  KeepsCounters m = (s : Account) → (m s).1.db.counters ≡ s.db.counters

module _ {A B : Type 0} (m : Action A) (f : A → Action B) where
  after_step :
      ((a : A) → KeepsCounters (f a))
      → (s : Account) (r : Result A) (t : Account) → t.db.counters ≡ s.db.counters
      → (((λ (u : Account). (r, t)) >>= f) s).1.db.counters ≡ s.db.counters
  after_step later s (ok a) t e = later a t ∙ e
  after_step later s (err x) t e = e

  pub bind-KeepsCounters :
      KeepsCounters m → ((a : A) → KeepsCounters (f a)) → KeepsCounters (m >>= f)
  bind-KeepsCounters first later s = after_step later s (m s).0 (m s).1 (first s)

commit-KeepsCounters :
    (f : Db → Result Db)
    → ((db out : Db) → f db ≡ ok out → out.counters ≡ db.counters)
    → KeepsCounters (commit f)
commit-KeepsCounters f keeps s = kept_or_raised (f s.db) refl
  where
    kept_or_raised :
        (q : Result Db) → f s.db ≡ q → (keep_or_raise s q).1.db.counters ≡ s.db.counters
    kept_or_raised (ok out) e = keeps s.db out e
    kept_or_raised (err x) e = refl

create_intent-counters :
    (x : Intent) (reserved : ℕ) (db out : Db)
    → create_intent x reserved db ≡ ok out
    → out.counters ≡ db.counters
unfolding create_intent
create_intent-counters x reserved db out e = ground arith

rate_attempt-counters :
    (now : ℕ) (x : Intent) (id : String) (db out : Db)
    → rate_attempt now x id db ≡ ok out
    → out.counters ≡ db.counters
unfolding rate_attempt
rate_attempt-counters now x id db out e =
    let (holdings, _, e1) = >>=-eq-ok (open_holdings db db.lifecycles) _ e in
    let reserve = exit_reserve x.side (pending_buys db + holdings) (child_size x.instrument) in
    let (_, _, e2) = >>=-eq-ok (check_windows now reserve db.rate_events windows) _ e1 in
    ground (arith, e2)

record_order-counters :
    (o i a : String) (t : OrderState) (p : BrokerOrder) (db out : Db)
    → record_order o i a t p db ≡ ok out
    → out.counters ≡ db.counters
unfolding record_order reopen_recovery_closed
record_order-counters o i a t p db out e = ground arith

record_attempt-counters :
    (now : ℕ) (a i : String) (t : AttemptState) (db : Db)
    → (record_attempt now a i t db).counters ≡ db.counters
unfolding record_attempt
record_attempt-counters now a i t db = ground arith

set_intent_state-counters :
    (i : String) (t : IntentState) (db : Db) → (set_intent_state i t db).counters ≡ db.counters
unfolding set_intent_state
set_intent_state-counters i t db = ground arith

check_reservation-KeepsCounters :
    (side : Side) (x : Intent) (reserved : ℕ) → KeepsCounters (check_reservation side x reserved)
check_reservation-KeepsCounters buy x reserved =
    bind-KeepsCounters (lift (worst_case_entry_cash x.quantity x.limit_price 1 default_fees))
      (λ cash.
        refuse_if (ltb reserved (reserve_cash cash))
          "entry reservation understates worst-case debit")
      (λ s. refl) (λ cash s. refl)
check_reservation-KeepsCounters sell x reserved = λ s. refl

check_holding-KeepsCounters :
    (side : Side) (x : Intent) (positions : Result (List Position))
    → KeepsCounters (check_holding side x positions)
check_holding-KeepsCounters buy x positions = λ s. refl
check_holding-KeepsCounters sell x positions =
    let id = x.instrument.security_id in
    let check = λ (pending : ℕ) (rows : List Position).
      refuse_if (ltb_ℤ (held_quantity id rows) (pos (x.quantity + pending)))
        "sale exceeds unreserved broker long quantity" in
    bind-KeepsCounters (gets (λ db. ok (pending_sales id db))) (λ n. lift positions >>= check n)
      (λ s. refl) (λ n. bind-KeepsCounters (lift positions) (check n) (λ s. refl) (λ rows s. refl))

check_submission-KeepsCounters :
    (account : String) (x : Intent) (reserved : ℕ) (ready : Bool)
    (positions : Result (List Position))
    → KeepsCounters (check_submission account x reserved ready positions)
unfolding check_submission
check_submission-KeepsCounters account x reserved ready positions =
    let holding = check_holding x.side x positions in
    let dispatchable = refuse_if (not ready) "entry inputs changed before dispatch" in
    let reservation = check_reservation x.side x reserved in
    bind-KeepsCounters (lift (order_request x account))
      (λ request. reservation >> (dispatchable >> holding)) (λ s. refl)
      (λ request.
        bind-KeepsCounters reservation (λ t. dispatchable >> holding)
          (check_reservation-KeepsCounters x.side x reserved)
          (λ t.
            bind-KeepsCounters dispatchable (λ u. holding) (λ s. refl)
              (λ u. check_holding-KeepsCounters x.side x positions)))

rate_or_abort-KeepsCounters :
    (now : ℕ) (x : Intent) (id : String) → KeepsCounters (rate_or_abort now x id)
rate_or_abort-KeepsCounters now x id s = at_result (rate_attempt now x id s.db) refl
  where
    at_result :
        (q : Result Db)
        → rate_attempt now x id s.db ≡ q
        → (rated x.intent_id q s).1.db.counters ≡ s.db.counters
    at_result (ok db) e = rate_attempt-counters now x id s.db db e
    at_result (err m) e = set_intent_state-counters x.intent_id aborted s.db

placed-KeepsCounters :
    (now : ℕ) (x : Intent) (account id : String) (o : BrokerOrder)
    → KeepsCounters (conclude now x account id (placed o))
placed-KeepsCounters now x account id o =
    let recorded = commit (record_order o.order_id x.intent_id account o.status o) in
    let last : KeepsCounters (recorded >> pure o.order_id) =
      bind-KeepsCounters recorded (λ t. pure o.order_id)
        (commit-KeepsCounters (record_order o.order_id x.intent_id account o.status o)
          (record_order-counters o.order_id x.intent_id account o.status o))
        (λ t s. refl) in
    λ s.
      last
        (record { db = record_attempt now id x.intent_id accepted s.db; revision = suc s.revision })
      ∙ record_attempt-counters now id x.intent_id accepted s.db

conclude-KeepsCounters :
    (now : ℕ) (x : Intent) (account id : String) (reply : Reply)
    → KeepsCounters (conclude now x account id reply)
conclude-KeepsCounters now x account id (failed e) =
    λ s. record_attempt-counters now id x.intent_id unknown s.db
conclude-KeepsCounters now x account id ambiguous =
    λ s. record_attempt-counters now id x.intent_id unknown s.db
conclude-KeepsCounters now x account id (placed o) = placed-KeepsCounters now x account id o

-- From the attempt that is started on.
started-KeepsCounters :
    (now : ℕ) (x : Intent) (account id : String) (reply : Reply)
    → KeepsCounters (
        modify (record_attempt now id x.intent_id started)
        >> (account_changed >> conclude now x account id reply))
started-KeepsCounters now x account id reply s =
    conclude-KeepsCounters now x account id reply
      (record { db = record_attempt now id x.intent_id started s.db; revision = suc s.revision })
    ∙ record_attempt-counters now id x.intent_id started s.db

dispatch-KeepsCounters :
    (now : ℕ) (account : String) (x : Intent) (reserved : ℕ) (id : String) (reply : Reply)
    → KeepsCounters (dispatch now account x reserved id reply)
unfolding dispatch
dispatch-KeepsCounters now account x reserved id reply =
    let rest =
      modify (record_attempt now id x.intent_id started)
      >> (account_changed >> conclude now x account id reply) in
    bind-KeepsCounters (commit (create_intent x reserved)) (λ t. rate_or_abort now x id >> rest)
      (commit-KeepsCounters (create_intent x reserved) (create_intent-counters x reserved))
      (λ t.
        bind-KeepsCounters (rate_or_abort now x id) (λ u. rest)
          (rate_or_abort-KeepsCounters now x id)
          (λ u. started-KeepsCounters now x account id reply))

pub submit-KeepsCounters :
    (now : ℕ) (account : String) (x : Intent) (reserved : ℕ) (ready : Bool) (id : String)
    (positions : Result (List Position)) (reply : Reply)
    → KeepsCounters (submit now account x reserved ready id positions reply)
unfolding submit
submit-KeepsCounters now account x reserved ready id positions reply =
    bind-KeepsCounters (check_submission account x reserved ready positions)
      (λ t. dispatch now account x reserved id reply)
      (check_submission-KeepsCounters account x reserved ready positions)
      (λ t. dispatch-KeepsCounters now account x reserved id reply)
