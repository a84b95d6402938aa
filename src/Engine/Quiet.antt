-- ===== src/Engine/Quiet.antt =====
-- When `cycle` of dhan_cas_bot/engine.py holds a position, said without its tests and in both directions.
use dhan_bot.Prelude.{
  ok, ℕ, String, Option, none, some, ◌≡◌, ◌≢◌, ◌⊎◌, ◌↔◌, inl, inr, refl, arith, true, false, ◌<◌,
  ◌≤◌, ◌+◌, ◌-◌, ◌*◌, ◌&&◌, length, ltb, eq_iff, Bool-cases, not, max,
}
use dhan_bot.Domain.{
  Instrument, OptionBook, OptionType, ce, pe, Level, CasStatus, CasPhase, cas_stop, unknown,
  top_ask, top_bid,
}
use dhan_bot.Settlement.Final.{FinalValue}
use dhan_bot.Risk.{sell_fees, default_fees}
use dhan_bot.Runtime.{position_open}
use dhan_bot.Ledger.{LifecycleRow, lookup}
use dhan_bot.Strategy.{Reference, intrinsic}
use dhan_bot.Strategy.Moves.{Beyond}
use dhan_bot.Engine.State.{Session}
use dhan_bot.Engine.Signals.{latest, is_some, is_type, direction, streak_of, is_unknown}
use dhan_bot.Engine.Finality.{is_cas_stop, has_stopped}
use dhan_bot.Engine.Leave.{
  Peaks, decide, converged, price_of, with_stored, follow_peaks, signal_gone, with_prices,
}
use dhan_bot.Engine.Staying.{IsQuiet, IsLagging, IsQuiet-state_reason, IsLagging-price_reason}
use dhan_bot.Engine.Sticky.{decide-IsQuiet, Priced}

-- The phase is known, and after the stop of the collection there is a final value.
abbrev pub IsSignalled : Option CasStatus → Option FinalValue → Type 0
IsSignalled none final = ⊥
IsSignalled (some s) final = (s.phase ≢ unknown) × ((s.phase ≢ cas_stop) ⊎ (final ≢ none))

-- The intrinsic value is above the ask by more than a tick, and by more than the charges of a lot.
abbrev pub IsApart : Instrument → ℕ → ℕ → Option Level → Type 0
IsApart i fees current none = ⊥
IsApart i fees current (some ask) =
    (ask.price + i.tick_size < current) × (fees < (current - ask.price) * i.lot_size)

-- What is seen of the prices at an index, with the reference and the book.
pub record IsAhead (i : Instrument) (reference index : ℕ) (b : OptionBook) (e : Session)
    : Type 0 where
  pub fees : ℕ
  pub charged : sell_fees default_fees (price_of (top_bid b) * i.lot_size) 1 ≡ ok fees
  pub sided : Beyond i.option_type reference index
  pub confirmed : 2 ≤ length (streak_of i.security_id e.streaks)
  pub apart : IsApart i fees (intrinsic i.option_type i.strike index) (top_ask b)
  pub near_peak :
      (e.peak_intrinsic ≤ intrinsic i.option_type i.strike index + i.tick_size)
      ⊎ (e.peak_bid ≤ price_of (top_bid b) + i.tick_size)

abbrev pub IsPriced :
    Instrument → Option ℕ → Option Reference → Option OptionBook → Session → Type 0
IsPriced i (some index) (some r) (some b) e = IsAhead i r.value index b e
IsPriced i _ _ _ e = Unit {0}

-- What a session must be for its position to be held, with the peaks that are stored.
pub record IsHeld (day : String) (stored : Peaks) (row : LifecycleRow) (i : Instrument) (time : ℕ)
    (e : Session) : Type 0 where
  pub no_reason : (e.exit_reason ≡ "") × (stored.exit ≡ "")
  pub booked : lookup i.security_id e.books ≢ none
  pub same_session : row.session_id ≡ day
  pub connected : (e.signal_connected ≡ true) × (e.market_connected ≡ true)
  pub referenced : e.reference ≢ none
  pub in_time : time < 56340000000
  pub signalled : IsSignalled e.status e.final_value
  pub priced :
      IsPriced i
        (latest e.observations)
        e.reference
        (lookup i.security_id e.books)
        (with_stored stored e)

module _ {A : Type 0} where
  some-there : (o : Option A) → is_some o ≡ true → o ≢ none
  some-there none h e = ground (arith, h)
  some-there (some a) h e = ground (arith, e)

  there-some : (o : Option A) → o ≢ none → is_some o ≡ true
  there-some none h = absurd (h refl)
  there-some (some a) h = refl

direction-Beyond : (t : OptionType) (r x : ℕ) → is_type (direction r x) t ≡ true → Beyond t r x
direction-Beyond ce r x h = ground arith
direction-Beyond pe r x h = ground arith

Beyond-direction : (t : OptionType) (r x : ℕ) → Beyond t r x → is_type (direction r x) t ≡ true
Beyond-direction ce r x h = ground arith
Beyond-direction pe r x h = ground arith

converged-IsApart :
    (i : Instrument) (fees current : ℕ) (o : Option Level)
    → converged i fees current o ≡ false
    → IsApart i fees current o
converged-IsApart i fees current none h = absurd (ground (arith, h))
converged-IsApart i fees current (some ask) h = (ground arith, ground arith)

IsApart-converged :
    (i : Instrument) (fees current : ℕ) (o : Option Level)
    → IsApart i fees current o
    → converged i fees current o ≡ false
IsApart-converged i fees current none h = elim h [ ]
IsApart-converged i fees current (some ask) h = ground arith

stop-ne : (p : CasPhase) → is_cas_stop p ≡ false → p ≢ cas_stop
stop-ne p h e = let d = rw e at h in ground (arith, d)

unknown-ne : (p : CasPhase) → is_unknown p ≡ false → p ≢ unknown
unknown-ne p h e = let d = rw e at h in ground (arith, d)

ne-unknown : (p : CasPhase) → p ≢ unknown → is_unknown p ≡ false
ne-unknown unknown h = absurd (h refl)
ne-unknown cas_stop h = refl
ne-unknown _ h = refl

ne-stop : (p : CasPhase) → p ≢ cas_stop → is_cas_stop p ≡ false
ne-stop cas_stop h = absurd (h refl)
ne-stop _ h = refl

-- The tests of the status, as the code puts them.
status_tests-IsSignalled :
    (status : Option CasStatus) (final : Option FinalValue)
    → (has_stopped status && not (is_some final)) ≡ false
    → signal_gone status ≡ false
    → IsSignalled status final
status_tests-IsSignalled none final h k = absurd (ground (arith, k))
status_tests-IsSignalled (some s) final h k = (
  unknown-ne s.phase k,
  elim (Bool-cases (is_cas_stop s.phase)) [
    | inr going ↦ inl (stop-ne s.phase going)
    | inl stopped ↦ inr (some-there final (let d = rw stopped at h in ground (arith, d)))
  ],
)

IsSignalled-status_tests :
    (status : Option CasStatus) (final : Option FinalValue)
    → IsSignalled status final
    → ((has_stopped status && not (is_some final)) ≡ false) × (signal_gone status ≡ false)
IsSignalled-status_tests none final h = elim h [ ]
IsSignalled-status_tests (some s) final (known, inl going) =
    (rw (ne-stop s.phase going) refl, ne-unknown s.phase known)
IsSignalled-status_tests (some s) final (known, inr there) =
    (let d = there-some final there in ground (arith, d), ne-unknown s.phase known)

peak_test-near :
    (p current q bid tick : ℕ)
    → (ltb (current + tick) (max p current) && ltb (bid + tick) (max q bid)) ≡ false
    → (p ≤ current + tick) ⊎ (q ≤ bid + tick)
peak_test-near p current q bid tick h = elim (Bool-cases (ltb (current + tick) (max p current))) [
  | inl below ↦ inr (let k = rw below at h in ground (arith, k))
  | inr above ↦ inl (ground (arith, above))
]

near-peak_test :
    (p current q bid tick : ℕ)
    → (p ≤ current + tick) ⊎ (q ≤ bid + tick)
    → (ltb (current + tick) (max p current) && ltb (bid + tick) (max q bid)) ≡ false
near-peak_test p current q bid tick (inl h) = ground arith
near-peak_test p current q bid tick (inr h) = ground arith

Priced-IsPriced :
    (i : Instrument) (index : Option ℕ) (r : Option Reference) (b : Option OptionBook) (e : Session)
    → Priced i index r b e
    → IsPriced i index r b e
Priced-IsPriced i none r b e h = tt
Priced-IsPriced i (some index) none b e h = tt
Priced-IsPriced i (some index) (some r) none e h = tt
Priced-IsPriced i (some index) (some r) (some b) e (fees, charged, h) = record {
  fees = fees;
  charged = charged;
  sided = direction-Beyond i.option_type r.value index h.directed;
  confirmed = h.confirmed;
  apart = converged-IsApart i fees (intrinsic i.option_type i.strike index) (top_ask b) h.apart;
  near_peak =
      peak_test-near e.peak_intrinsic (intrinsic i.option_type i.strike index) e.peak_bid
        (price_of (top_bid b)) i.tick_size h.peaking;
}

quiet_prices :
    (i : Instrument) (index : Option ℕ) (r : Option Reference) (b : Option OptionBook) (e : Session)
    → IsPriced i index r b e
    → (e' : Session) × (with_prices "" i index r b e ≡ ok ("", e'))
quiet_prices i none r b e h = (e, refl)
quiet_prices i (some index) none b e h = (e, refl)
quiet_prices i (some index) (some r) none e h = (e, refl)
quiet_prices i (some index) (some r) (some b) e h =
    let e' = follow_peaks (intrinsic i.option_type i.strike index) (price_of (top_bid b)) e in
    let lagging : IsLagging i r.value index b h.fees e' = record {
      directed = Beyond-direction i.option_type r.value index h.sided;
      confirmed = h.confirmed;
      apart =
          IsApart-converged i h.fees (intrinsic i.option_type i.strike index) (top_ask b) h.apart;
      peaking =
          near-peak_test e.peak_intrinsic (intrinsic i.option_type i.strike index) e.peak_bid
            (price_of (top_bid b)) i.tick_size h.near_peak;
    } in
    (e', rw (h.charged, IsLagging-price_reason i r.value index b h.fees e' lagging) refl)

-- The state and the prices of a session that is held give no reason.
IsHeld-IsQuiet :
    (day : String) (stored : Peaks) (row : LifecycleRow) (i : Instrument) (time : ℕ) (e : Session)
    → IsHeld day stored row i time e
    → IsQuiet day stored row (lookup i.security_id e.books) time (with_stored stored e)
IsHeld-IsQuiet day stored row i time e h =
    let (running, seen) = IsSignalled-status_tests e.status e.final_value h.signalled in
    record {
      no_reason = h.no_reason;
      has_book = there-some (lookup i.security_id e.books) h.booked;
      alive = (
        (eq_iff row.session_id day).1 h.same_session,
        h.connected.0,
        h.connected.1,
        there-some e.reference h.referenced,
      );
      in_time = h.in_time;
      not_stopped = running;
      has_signal = seen;
    }

-- A decision holds a position, and the runtime then says that it is open, exactly when: no reason to leave was given before, in the session or stored; its
-- contract has a book; the session is that of the position, with a reference and both feeds
-- connected; it is before 15:39; the phase is known and, after the stop of the collection, there
-- is a final value; and, where there is an observation, the index lies on the side of the option, the streak of the contract is two or
-- more, the intrinsic value is above the best ask by more than a tick and by more than the charges of a
-- sale of a lot at the best bid, and the intrinsic value or the bid is at most a tick below its peak.
pub decide-holds_iff :
    (day : String) (stored : Peaks) (row : LifecycleRow) (i : Instrument) (time : ℕ) (e : Session)
    → ((e' : Session) × (decide day stored row i time e ≡ ok ("", e'))
        × (e'.runtime.state ≡ position_open))
      ↔ IsHeld day stored row i time e
unfolding decide
decide-holds_iff day stored row i time e = (
  λ (e', h, state).
      let (quiet, priced, _) = decide-IsQuiet day stored row i time e e' h in
      record {
        no_reason = quiet.no_reason;
        booked = some-there (lookup i.security_id e.books) quiet.has_book;
        same_session = (eq_iff row.session_id day).0 quiet.alive.0;
        connected = (quiet.alive.1, quiet.alive.2);
        referenced = some-there e.reference quiet.alive.3;
        in_time = quiet.in_time;
        signalled =
            status_tests-IsSignalled e.status e.final_value quiet.not_stopped quiet.has_signal;
        priced =
            Priced-IsPriced i (latest e.observations) e.reference (lookup i.security_id e.books)
              (with_stored stored e) priced;
      },
  λ h.
      let s = with_stored stored e in
      let book = lookup i.security_id e.books in
      let blank =
        IsQuiet-state_reason day stored row book time s
          (IsHeld-IsQuiet day stored row i time e h) in
      let (found, priced) = quiet_prices i (latest e.observations) e.reference book s h.priced in
      (
        record found { runtime = record found.runtime { state = position_open } },
        rw (blank, priced) refl,
        refl,
      ),
)
