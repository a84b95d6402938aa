-- ===== src/Engine/Entering.antt =====
-- When `_enter` of dhan_cas_bot/engine.py goes on to look for an entry, said without its tests and in
-- both directions.
use dhan_bot.Domain.{CasPhase, CasStatus, cas_stop, cas_lm_start, cas_m_stop}
use dhan_bot.Ledger.{LifecycleRow, pending_intents}
use dhan_bot.Orders.{Position}
use dhan_bot.Settlement.Final.{FinalValue}
use dhan_bot.Engine.Allowed.{IsAllowed, permitted-IsAllowed, IsAllowed-permitted}
use dhan_bot.Engine.Finality.{has_stopped, is_cas_stop}
use dhan_bot.Engine.State.{Session}
use dhan_bot.Engine.Signals.{is_some}
use dhan_bot.Engine.Entry.{
  Rules, Moment, entry_refusal, permitted, is_foreign, is_of_day, is_final_entry, in_auction,
  is_auction, in_window, not_permitted, unmanaged_position, outside_window, feed_not_ready,
}
use dhan_bot.Prelude.{
  Bool, true, false, ℕ, Option, none, some, List, [], ◌∷◌, All, any, length, pos, ◌≡◌, ◌≢◌, ◌⊎◌,
  ◌↔◌, inl, inr, refl, arith, eq_iff, Bool-cases, not, ◌&&◌, ◌||◌, ◌==◌, ◌≤◌, ◌<◌, str_eq,
  if◌then◌else◌,
}

-- A position of the account that is empty or of the contract that the session manages.
abbrev pub IsOf : Option LifecycleRow → Position → Type 0
IsOf none p = ⊥
IsOf (some row) p = p.security_id ≡ row.security_id

abbrev pub IsManaged : Option LifecycleRow → Position → Type 0
IsManaged row p = (p.net_quantity ≡ pos 0) ⊎ IsOf row p

abbrev pub IsOfDay : Option CasStatus → ℕ → Type 0
IsOfDay none day = ⊥
IsOfDay (some s) day = s.trading_date ≡ day

abbrev pub HasStopped : Option CasStatus → Type 0
HasStopped none = ⊥
HasStopped (some s) = s.phase ≡ cas_stop

abbrev pub IsAuction : Option CasStatus → Type 0
IsAuction none = ⊥
IsAuction (some s) = (s.phase ≡ cas_lm_start) ⊎ (s.phase ≡ cas_m_stop)

-- What the session, the account and the clock must be for an entry.
pub record IsOpen (r : Rules) (adds unresolved : Bool) (positions : List Position)
    (row : Option LifecycleRow) (at : Moment) (e : Session) : Type 0 where
  pub settled : (unresolved ≡ false) × (length (pending_intents e.db) ≡ 0)
  pub allowed : IsAllowed r adds e.runtime e.db
  pub managed : All (IsManaged row) positions
  pub today : at.day ≡ e.session_id
  pub connected : e.market_connected ≡ true
  pub of_day : IsOfDay e.status at.day
  pub opening : 55200000000 ≤ at.time
  pub timely :
      ((e.final_value ≢ none) × HasStopped e.status × (at.time < 56310000000))
      ⊎ ((at.time < 55800000000) × (e.signal_connected ≡ true) × IsAuction e.status)

foreign-IsManaged :
    (row : Option LifecycleRow) (p : Position) → is_foreign row p ≡ false → IsManaged row p
foreign-IsManaged none p h = inl (ground arith)
foreign-IsManaged (some row) p h = elim (Bool-cases (str_eq p.security_id row.security_id)) [
  | inl own ↦ inr ((eq_iff p.security_id row.security_id).0 own)
  | inr other ↦ inl (let d = rw other at h in ground (arith, d))
]

IsManaged-foreign :
    (row : Option LifecycleRow) (p : Position) → IsManaged row p → is_foreign row p ≡ false
IsManaged-foreign none p (inl h) = rw h refl
IsManaged-foreign none p (inr h) = elim h [ ]
IsManaged-foreign (some row) p (inl h) = rw h refl
IsManaged-foreign (some row) p (inr h) =
    let own = (eq_iff p.security_id row.security_id).1 h in ground (arith, own)

foreign-All :
    (row : Option LifecycleRow) (ps : List Position)
    → any (is_foreign row) ps ≡ false
    → All (IsManaged row) ps
foreign-All row [] h = tt
foreign-All row (p ∷ ps) h =
    (foreign-IsManaged row p (ground (arith, h)), foreign-All row ps (ground (arith, h)))

All-foreign :
    (row : Option LifecycleRow) (ps : List Position)
    → All (IsManaged row) ps
    → any (is_foreign row) ps ≡ false
All-foreign row [] h = refl
All-foreign row (p ∷ ps) h =
    let own = IsManaged-foreign row p h.0 in
    let others = All-foreign row ps h.1 in ground (arith, own, others)

stopped-HasStopped : (o : Option CasStatus) → has_stopped o ≡ true → HasStopped o
stopped-HasStopped none h = absurd (ground (arith, h))
stopped-HasStopped (some s) h = phase-stop s.phase h
  where
    phase-stop : (p : CasPhase) → is_cas_stop p ≡ true → p ≡ cas_stop
    phase-stop cas_stop h = refl
    phase-stop _ h = absurd (ground (arith, h))

HasStopped-stopped : (o : Option CasStatus) → HasStopped o → has_stopped o ≡ true
HasStopped-stopped none h = elim h [ ]
HasStopped-stopped (some s) h = rw h refl

collects-IsAuction : (o : Option CasStatus) → in_auction o ≡ true → IsAuction o
collects-IsAuction none h = absurd (ground (arith, h))
collects-IsAuction (some s) h = phase-auction s.phase h
  where
    phase-auction : (p : CasPhase) → is_auction p ≡ true → (p ≡ cas_lm_start) ⊎ (p ≡ cas_m_stop)
    phase-auction cas_lm_start h = inl refl
    phase-auction cas_m_stop h = inr refl
    phase-auction _ h = absurd (ground (arith, h))

IsAuction-collects : (o : Option CasStatus) → IsAuction o → in_auction o ≡ true
IsAuction-collects none h = elim h [ ]
IsAuction-collects (some s) (inl h) = rw h refl
IsAuction-collects (some s) (inr h) = rw h refl

dated-IsOfDay : (o : Option CasStatus) (day : ℕ) → is_of_day o day ≡ true → IsOfDay o day
dated-IsOfDay none day h = absurd (ground (arith, h))
dated-IsOfDay (some s) day h = ground (arith, h)

IsOfDay-dated : (o : Option CasStatus) (day : ℕ) → IsOfDay o day → is_of_day o day ≡ true
IsOfDay-dated none day h = elim h [ ]
IsOfDay-dated (some s) day h = ground (arith, h)

final-there : (o : Option FinalValue) → is_some o ≡ true → o ≢ none
final-there none h e = ground (arith, h)
final-there (some f) h e = ground (arith, e)

there-final : (o : Option FinalValue) → o ≢ none → is_some o ≡ true
there-final none h = absurd (h refl)
there-final (some f) h = refl

-- The window and the feed, by whether a final value follows the stop.
in_time :
    (final signal auction : Bool) (time : ℕ)
    → in_window final time ≡ true
    → (final || signal && auction) ≡ true
    → (55200000000 ≤ time)
      × (((final ≡ true) × (time < 56310000000))
          ⊎ ((time < 55800000000) × (signal ≡ true) × (auction ≡ true)))
in_time true signal auction time h k = (ground arith, inl (refl, ground arith))
in_time false signal auction time h k =
    (ground arith, inr (ground arith, ground arith, ground arith))

when_final :
    (signal auction : Bool) (time : ℕ)
    → 55200000000 ≤ time
    → time < 56310000000
    → (in_window true time ≡ true) × ((true || signal && auction) ≡ true)
when_final signal auction time h k = (ground arith, refl)

when_live :
    (final : Bool) (time : ℕ)
    → 55200000000 ≤ time
    → time < 55800000000
    → (in_window final time ≡ true) × ((final || true && true) ≡ true)
when_live true time h k = (ground arith, refl)
when_live false time h k = (ground arith, refl)

module _ (r : Rules) (adds unresolved : Bool) (positions : List Position)
    (row : Option LifecycleRow) (at : Moment) (e : Session) where
  -- The tests, all passed.
  abbrev Passed : Type 0
  Passed =
      (unresolved ≡ false)
      × ((length (pending_intents e.db) == 0) ≡ true)
      × (permitted r adds e ≡ true)
      × (any (is_foreign row) positions ≡ false)
      × ((at.day == e.session_id) ≡ true)
      × (in_window (is_final_entry e) at.time ≡ true)
      × (e.market_connected ≡ true)
      × (is_of_day e.status at.day ≡ true)
      × ((is_final_entry e || e.signal_connected && in_auction e.status) ≡ true)

  refusal-Passed : entry_refusal r adds unresolved positions row at e ≡ none → Passed
  unfolding entry_refusal
  refusal-Passed h =
      passed unresolved (length (pending_intents e.db) == 0) (permitted r adds e)
        (any (is_foreign row) positions) (at.day == e.session_id)
        (in_window (is_final_entry e) at.time) e.market_connected (is_of_day e.status at.day)
        (is_final_entry e || e.signal_connected && in_auction e.status) h
    where
      passed :
          (u n p f d w m o t : Bool)
          → (if u || not n || not p
              then some not_permitted
              else if f
              then some unmanaged_position
              else if not d || not w
              then some outside_window
              else if not (m && o && t)
              then some feed_not_ready
              else none)
            ≡ none
          → (u ≡ false)
            × (n ≡ true)
            × (p ≡ true)
            × (f ≡ false)
            × (d ≡ true)
            × (w ≡ true)
            × (m ≡ true)
            × (o ≡ true)
            × (t ≡ true)
      passed u n p f d w m o t h = (
        ground arith,
        ground arith,
        ground arith,
        ground arith,
        ground arith,
        ground arith,
        ground arith,
        ground arith,
        ground arith,
      )

  Passed-refusal : Passed → entry_refusal r adds unresolved positions row at e ≡ none
  unfolding entry_refusal
  Passed-refusal (u, n, p, f, d, w, m, o, t) = ground (arith, u, n, p, f, d, w, m, o, t)

  Passed-IsOpen : Passed → IsOpen r adds unresolved positions row at e
  Passed-IsOpen (u, n, p, f, d, w, m, o, t) =
      let (opening, timely) =
        in_time (is_final_entry e) e.signal_connected (in_auction e.status) at.time w t in
      record {
        settled = (u, ground (arith, n));
        allowed = permitted-IsAllowed r adds e p;
        managed = foreign-All row positions f;
        today = ground (arith, d);
        connected = m;
        of_day = dated-IsOfDay e.status at.day o;
        opening = opening;
        timely = elim timely [
          | inl (final, early) ↦ inl (
            final-there e.final_value (ground (arith, final)),
            stopped-HasStopped e.status (ground (arith, final)),
            early,
          )
          | inr (early, signal, auction) ↦ inr (early, signal, collects-IsAuction e.status auction)
        ];
      }

  IsOpen-Passed : IsOpen r adds unresolved positions row at e → Passed
  IsOpen-Passed h =
      let (w, t) = in_window_and_feed h.timely in
      (
        h.settled.0,
        ground (arith, h.settled),
        IsAllowed-permitted r adds e h.allowed,
        All-foreign row positions h.managed,
        ground (arith, h.today),
        w,
        h.connected,
        IsOfDay-dated e.status at.day h.of_day,
        t,
      )
    where
      in_window_and_feed :
          ((e.final_value ≢ none) × HasStopped e.status × (at.time < 56310000000))
            ⊎ ((at.time < 55800000000) × (e.signal_connected ≡ true) × IsAuction e.status)
          → (in_window (is_final_entry e) at.time ≡ true)
            × ((is_final_entry e || e.signal_connected && in_auction e.status) ≡ true)
      in_window_and_feed (inl (there, stopped, early)) =
          rw (there-final e.final_value there, HasStopped-stopped e.status stopped)
            (when_final e.signal_connected (in_auction e.status) at.time h.opening early)
      in_window_and_feed (inr (early, signal, auction)) =
          rw (signal, IsAuction-collects e.status auction)
            (when_live (is_final_entry e) at.time h.opening early)

  pub entry_refusal-opens_iff :
      (entry_refusal r adds unresolved positions row at e ≡ none)
      ↔ IsOpen r adds unresolved positions row at e
  entry_refusal-opens_iff =
      (λ h. Passed-IsOpen (refusal-Passed h), λ h. Passed-refusal (IsOpen-Passed h))
