-- ===== src/Engine/Settled.antt =====
-- What `on_final` of dhan_cas_bot/engine.py accepts, and what an accepted value leaves.
use dhan_bot.Runtime.{permit_entry}
use dhan_bot.Settlement.Final.{FinalValue, validate}
use dhan_bot.Domain.{CasPhase, CasStatus, cas_stop, Mandate}
use dhan_bot.Engine.State.{Codec, Session, active}
use dhan_bot.Ledger.{lookup, metadata, put_metadata, upsert, LifecycleRow}
use dhan_bot.Domain.{cts_close, cas_lm_start, cas_m_stop, cas_stop, unknown}
use dhan_bot.Prelude.{
  refl, [], none, ◌∷◌, Option, ℕ, String, ◌≡◌, true, List, ◌≤◌, ok, ◌<◌, some, arith, text_append,
  >>=-eq-ok, false, ◌⊎◌, eq_iff, ◌*◌, ◌>>=◌, Bool, raise_if, not, ◌==◌, ◌&&◌, ◌>>◌, subst, ◌||◌,
  ltb, Bool-cases, inl, ◌∙◌, ap, inr, Result,
}
use dhan_bot.Engine.Finality.{
  on_final, check_final, is_cas_stop, has_stopped, is_historical, precedes_stop, is_revision,
  keep_final, halt_if, check_day,
}

-- A value for the day of the session after its collection stop, or for an earlier day whose position is
-- still open.
abbrev pub InTime : Codec → ℕ → FinalValue → Session → Type 0
InTime c now f e =
    (f.received_at.time ≤ now)
    × (((f.trading_date < e.session_id)
          × (row : LifecycleRow) × (active e ≡ ok (some row))
          × (c.of_day f.trading_date ≡ row.session_id))
        ⊎ ((f.trading_date ≡ e.session_id)
            × (s : CasStatus) × (e.status ≡ some s)
            × (s.phase ≡ cas_stop)
            × (s.updated_time_ms * 1000 ≤ f.published_at.time)))

is_cas_stop-eq : (p : CasPhase) → is_cas_stop p ≡ true → p ≡ cas_stop
is_cas_stop-eq cas_stop h = refl
is_cas_stop-eq cts_close h = cc
is_cas_stop-eq cas_lm_start h = cc
is_cas_stop-eq cas_m_stop h = cc
is_cas_stop-eq unknown h = cc

has_stopped-some :
    (o : Option CasStatus) (f : FinalValue)
    → has_stopped o ≡ true
    → precedes_stop o f ≡ false
    → (s : CasStatus) × (o ≡ some s)
      × (s.phase ≡ cas_stop)
      × (s.updated_time_ms * 1000 ≤ f.published_at.time)
has_stopped-some none f h k = absurd (ground (arith, h))
has_stopped-some (some s) f h k = (s, refl, is_cas_stop-eq s.phase h, ground (arith, k))

is_historical-some :
    (c : Codec) (e : Session) (row : Option LifecycleRow) (f : FinalValue)
    → is_historical c e row f ≡ true
    → (f.trading_date < e.session_id)
      × (r : LifecycleRow) × (row ≡ some r)
      × (c.of_day f.trading_date ≡ r.session_id)
is_historical-some c e none f h = absurd (ground (arith, h))
is_historical-some c e (some r) f h =
    (ground (arith, h), r, refl, ground (arith, h, eq_iff (c.of_day f.trading_date) r.session_id))

passed_check :
    (test : Bool) (m : String) (k : Result (Unit {0}))
    → (raise_if test m >> k) ≡ ok tt
    → (test ≡ false) × (k ≡ ok tt)
passed_check true m k h = absurd (ground (arith, h))
passed_check false m k h = (refl, h)

ltb_no : (a b : ℕ) → ltb a b ≡ false → b ≤ a
ltb_no a b h = ground arith

same_nat : (a b : ℕ) → (a == b) ≡ true → a ≡ b
same_nat a b h = ground arith

passed_last : (test : Bool) (m : String) → raise_if test m ≡ ok tt → test ≡ false
passed_last true m h = absurd (ground (arith, h))
passed_last false m h = refl

-- What the tests say where the value is of the day of the session.
told :
    (day stopped early late : Bool)
    → (not day && true) ≡ false
    → not stopped ≡ false
    → (early || late) ≡ false
    → (day ≡ true) × (stopped ≡ true) × (early ≡ false) × (late ≡ false)
told day stopped early late h k l = (ground arith, ground arith, ground arith, ground arith)

check_day-InTime :
    (c : Codec) (now : ℕ) (f : FinalValue) (e : Session) (row : Option LifecycleRow)
    → active e ≡ ok row
    → check_day c now f e row ≡ ok tt
    → InTime c now f e
check_day-InTime c now f e row found l =
    let old = is_historical c e row f in
    let late = not old && precedes_stop e.status f || ltb now f.received_at.time in
    let early =
      raise_if (not old && not (has_stopped e.status))
        "final input cannot precede collection stop" in
    let timed = raise_if late "final input time is inconsistent with session" in
    let (own, a) =
      passed_check (not (f.trading_date == e.session_id) && not old)
        "final value is for another session" (early >> timed) l in
    let (stopped, b) =
      passed_check (not old && not (has_stopped e.status))
        "final input cannot precede collection stop" timed a in
    let in_time = passed_last late "final input time is inconsistent with session" b in
    elim (Bool-cases old) [
      | inl before ↦
          let (earlier, r, same, day) = is_historical-some c e row f before in
          (ground (arith, in_time), inl (earlier, r, found ∙ ap (λ o. ok o) same, day))
      | inr today ↦
          let own_day = rw today at own in
          let at_stop = rw today at stopped in
          let after = rw today at in_time in
          let (same_day, stop_seen, not_early, not_late) =
            told (f.trading_date == e.session_id) (has_stopped e.status) (precedes_stop e.status f)
              (ltb now f.received_at.time) own_day at_stop after in
          let (s, now_s, stop, later) = has_stopped-some e.status f stop_seen not_early in
          (
            ltb_no now f.received_at.time not_late,
            inr (same_nat f.trading_date e.session_id same_day, s, now_s, stop, later),
          )
    ]

check_final-InTime :
    (c : Codec) (now : ℕ) (f : FinalValue) (e : Session)
    → check_final c now f e ≡ ok tt
    → (validate f ≡ ok tt) × InTime c now f e
unfolding check_final
check_final-InTime c now f e h =
    let (_, valid, k) =
      >>=-eq-ok (validate f) (λ _. active e >>= λ row. check_day c now f e row) h in
    let (row, found, l) = >>=-eq-ok (active e) (λ row. check_day c now f e row) k in
    (valid, check_day-InTime c now f e row found l)

lookup-upsert : (k v : String) (rows : List (String × String)) → lookup k (upsert k v rows) ≡ some v
unfolding lookup upsert
lookup-upsert k v [] = ground (arith, eq_iff k k)
lookup-upsert k v ((j, w) ∷ rows) = ground (arith, eq_iff j k, eq_iff k k, lookup-upsert k v rows)

-- A final value is accepted only if it is valid, was not received in the future, and is either of the
-- day of the session, published at or after the collection stop that the status reports, or of
-- an earlier day whose position is still open. It is then the session's and stands in the ledger under its day; where it
-- differs from the one before, the runtime is no longer armed and no entry is permitted.
pub on_final-InTime :
    (c : Codec) (now : ℕ) (f : FinalValue) (e e' : Session)
    → on_final c now f e ≡ ok e'
    → (validate f ≡ ok tt)
      × InTime c now f e
      × (e'.final_value ≡ some f)
      × (metadata (text_append "final:" (c.of_day f.trading_date)) e'.db ≡ some (c.of_final f))
      × (is_revision e.final_value f ≡ true
          → (e'.exit_reason ≡ "FINAL_VALUE_REVISED")
            × (e'.runtime.is_armed ≡ false)
            × ((known enabled : List String) (fresh : Option Bool) (m : Mandate) (adds : Bool)
                  (strategy : String)
                → permit_entry known enabled fresh m adds strategy e'.runtime e'.db ≡ false))
unfolding on_final metadata put_metadata permit_entry
on_final-InTime c now f e e' h =
    let (_, checked, done) =
      >>=-eq-ok (check_final c now f e)
        (λ _. ok (keep_final c f (halt_if (is_revision e.final_value f) e))) h in
    let (valid, in_time) = check_final-InTime c now f e checked in
    let final : keep_final c f (halt_if (is_revision e.final_value f) e) ≡ e' =
      ground (arith, done) in
    subst
      (λ (t : Session).
        (validate f ≡ ok tt)
        × InTime c now f e
        × (t.final_value ≡ some f)
        × (metadata (text_append "final:" (c.of_day f.trading_date)) t.db ≡ some (c.of_final f))
        × (is_revision e.final_value f ≡ true
            → (t.exit_reason ≡ "FINAL_VALUE_REVISED")
              × (t.runtime.is_armed ≡ false)
              × ((known enabled : List String) (fresh : Option Bool) (m : Mandate) (adds : Bool)
                    (strategy : String)
                  → permit_entry known enabled fresh m adds strategy t.runtime t.db ≡ false)))
      final
      (
        valid,
        in_time,
        refl,
        lookup-upsert (text_append "final:" (c.of_day f.trading_date)) (c.of_final f)
            (halt_if (is_revision e.final_value f) e).db.metadata,
        λ revised. rw revised (refl, refl, λ known enabled fresh m adds strategy. ground arith),
      )
