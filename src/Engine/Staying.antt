-- ===== src/Engine/Staying.antt =====
-- For what `cycle` of dhan_cas_bot/engine.py holds a position, and that a reason to leave stays.
use dhan_bot.Engine.Signals.{is_type, is_some, direction, streak_of}
use dhan_bot.Ledger.{LifecycleRow}
use dhan_bot.Domain.{Instrument, OptionBook, top_ask, top_bid}
use dhan_bot.Engine.State.{Session}
use dhan_bot.Engine.Leave.{
  Peaks, price_reason, state_reason, or_if, stop_without_final, signal_gone, converged, price_of,
}
use dhan_bot.Strategy.{intrinsic}
use dhan_bot.Prelude.{
  refl, String, Bool, not, ℕ, str_eq, ◌||◌, Option, ◌≡◌, false, Bool-cases, true, ◌<◌, ◌≤◌, arith,
  inr, eq_iff, length, ltb, inl, leb, ◌+◌, ◌&&◌,
}

or_if-empty :
    (r other : String) (test : Bool)
    → str_eq other "" ≡ false
    → or_if r test other ≡ ""
    → (r ≡ "") × (test ≡ false)
or_if-empty r other test o h = elim (Bool-cases (str_eq r "")) [
  | inr set ↦ absurd (let d = rw set at h in ground (arith, d, set, eq_iff r ""))
  | inl blank ↦ elim (Bool-cases test) [
    | inl yes_test ↦
        absurd (let d = rw (blank, yes_test) at h in ground (arith, d, o, eq_iff other ""))
    | inr no_test ↦ (ground (arith, blank, eq_iff r ""), no_test)
  ]
]

pub or_if-stays : (r other : String) (test : Bool) → str_eq r "" ≡ false → or_if r test other ≡ r
or_if-stays r other test h = rw h refl

-- What the session must be for its position to be held.
pub record IsQuiet (day : String) (stored : Peaks) (row : LifecycleRow) (book : Option OptionBook)
    (time : ℕ) (e : Session) : Type 0 where
  pub no_reason : (e.exit_reason ≡ "") × (stored.exit ≡ "")
  pub has_book : is_some book ≡ true
  pub alive :
      (str_eq row.session_id day ≡ true)
      × (e.signal_connected ≡ true)
      × (e.market_connected ≡ true)
      × (is_some e.reference ≡ true)
  pub in_time : time < 56340000000
  pub not_stopped : stop_without_final e ≡ false
  pub has_signal : signal_gone e.status ≡ false

still_alive :
    (own signal market reference : Bool)
    → (not own || not signal || not market || not reference) ≡ false
    → (own ≡ true) × (signal ≡ true) × (market ≡ true) × (reference ≡ true)
still_alive own signal market reference h = (ground arith, ground arith, ground arith, ground arith)

pub state_reason-IsQuiet :
    (day : String) (stored : Peaks) (row : LifecycleRow) (book : Option OptionBook) (time : ℕ)
    (e : Session)
    → state_reason day stored row book time e ≡ ""
    → IsQuiet day stored row book time e
unfolding state_reason
state_reason-IsQuiet day stored row book time e h =
    let kept = or_if e.exit_reason true stored.exit in
    let no_book = or_if kept (not (is_some book)) "OPTION_BOOK_UNAVAILABLE" in
    let gone =
      not (str_eq row.session_id day)
      || not e.signal_connected
      || not e.market_connected
      || not (is_some e.reference) in
    let lost = or_if no_book gone "RECOVERY_OR_SIGNAL_UNAVAILABLE" in
    let late = or_if lost (leb 56340000000 time) "TIME_EXIT" in
    let stopped = or_if late (stop_without_final e) "COLLECTION_STOPPED_NO_FINAL_INPUT" in
    let (h1, signal) = or_if-empty stopped "SIGNAL_UNAVAILABLE" (signal_gone e.status) refl h in
    let (h2, stop) =
      or_if-empty late "COLLECTION_STOPPED_NO_FINAL_INPUT" (stop_without_final e) refl h1 in
    let (h3, time_left) = or_if-empty lost "TIME_EXIT" (leb 56340000000 time) refl h2 in
    let (h4, here) = or_if-empty no_book "RECOVERY_OR_SIGNAL_UNAVAILABLE" gone refl h3 in
    let (h5, booked) = or_if-empty kept "OPTION_BOOK_UNAVAILABLE" (not (is_some book)) refl h4 in
    record {
      no_reason = nothing_kept e.exit_reason stored.exit h5;
      has_book = not_not (is_some book) booked;
      alive =
          still_alive (str_eq row.session_id day) e.signal_connected e.market_connected
            (is_some e.reference) here;
      in_time = before_then 56340000000 time time_left;
      not_stopped = stop;
      has_signal = signal;
    }
  where
    nothing_kept : (r s : String) → or_if r true s ≡ "" → (r ≡ "") × (s ≡ "")
    nothing_kept r s h = elim (Bool-cases (str_eq r "")) [
      | inr set ↦ absurd (let d = rw set at h in ground (arith, d, set, eq_iff r ""))
      | inl blank ↦ let d = rw blank at h in ((eq_iff r "").0 blank, d)
    ]

    not_not : (b : Bool) → not b ≡ false → b ≡ true
    not_not b h = ground arith

    before_then : (a b : ℕ) → leb a b ≡ false → b < a
    before_then a b h = ground arith

-- What the prices must be where there is an observation.
pub record IsLagging (i : Instrument) (reference index : ℕ) (b : OptionBook) (fees : ℕ)
    (e : Session) : Type 0 where
  pub directed : is_type (direction reference index) i.option_type ≡ true
  pub confirmed : 2 ≤ length (streak_of i.security_id e.streaks)
  pub apart : converged i fees (intrinsic i.option_type i.strike index) (top_ask b) ≡ false
  pub peaking :
      (ltb (intrinsic i.option_type i.strike index + i.tick_size) e.peak_intrinsic
        && ltb (price_of (top_bid b) + i.tick_size) e.peak_bid)
      ≡ false

pub price_reason-IsLagging :
    (reason : String) (i : Instrument) (reference index : ℕ) (b : OptionBook) (fees : ℕ)
    (e : Session)
    → price_reason reason i reference index b fees e ≡ ""
    → (reason ≡ "") × IsLagging i reference index b fees e
unfolding price_reason
price_reason-IsLagging reason i reference index b fees e h =
    let current = intrinsic i.option_type i.strike index in
    elim (Bool-cases (is_type (direction reference index) i.option_type)) [
      | inr reversed ↦ absurd (let d = rw reversed at h in never reason "DIRECTION_REVERSAL" refl d)
      | inl directed ↦
          let h1 = rw directed at h in
          elim (Bool-cases (ltb (length (streak_of i.security_id e.streaks)) 2)) [
            | inl short ↦
                absurd (let d = rw short at h1 in never reason "CONTRACT_LAG_INVALIDATED" refl d)
            | inr long ↦
                let h2 = rw long at h1 in
                elim (Bool-cases (converged i fees current (top_ask b))) [
                  | inl met ↦ absurd (let d = rw met at h2 in never reason "LAG_CONVERGED" refl d)
                  | inr apart ↦
                      let h3 = rw apart at h2 in
                      elim (Bool-cases (
                        ltb (current + i.tick_size) e.peak_intrinsic
                        && ltb (price_of (top_bid b) + i.tick_size) e.peak_bid)) [
                          | inl fell ↦
                              absurd (let d = rw fell at h3 in never reason "JOINT_REVERSAL" refl d)
                          | inr peaking ↦
                              let h4 = rw peaking at h3 in
                              (
                                h4,
                                record {
                                  directed = directed;
                                  confirmed =
                                      two_or_more (length (streak_of i.security_id e.streaks)) long;
                                  apart = apart;
                                  peaking = peaking;
                                },
                              )
                        ]
                ]
          ]
    ]
  where
    never : (r other : String) → str_eq other "" ≡ false → or_if r true other ≡ "" → ⊥
    never r other o d = ground (arith, (or_if-empty r other true o d).1)

    two_or_more : (n : ℕ) → ltb n 2 ≡ false → 2 ≤ n
    two_or_more n h = ground arith

-- A session that is quiet gives no reason.
pub IsQuiet-state_reason :
    (day : String) (stored : Peaks) (row : LifecycleRow) (book : Option OptionBook) (time : ℕ)
    (e : Session)
    → IsQuiet day stored row book time e
    → state_reason day stored row book time e ≡ ""
unfolding state_reason
IsQuiet-state_reason day stored row book time e h =
    let early = in_time-leb time h.in_time in
    rw
      (
        h.no_reason.0, h.no_reason.1, h.has_book, h.alive.0, h.alive.1, h.alive.2, h.alive.3, early,
        h.not_stopped, h.has_signal,
      )
      refl
  where
    in_time-leb : (t : ℕ) → t < 56340000000 → leb 56340000000 t ≡ false
    in_time-leb t h = ground arith

pub IsLagging-price_reason :
    (i : Instrument) (reference index : ℕ) (b : OptionBook) (fees : ℕ) (e : Session)
    → IsLagging i reference index b fees e
    → price_reason "" i reference index b fees e ≡ ""
unfolding price_reason
IsLagging-price_reason i reference index b fees e h =
    let long = two-ltb (length (streak_of i.security_id e.streaks)) h.confirmed in
    rw (h.directed, long, h.apart, h.peaking) refl
  where
    two-ltb : (n : ℕ) → 2 ≤ n → ltb n 2 ≡ false
    two-ltb n h = ground arith
