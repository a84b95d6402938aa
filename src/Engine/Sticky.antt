-- ===== src/Engine/Sticky.antt =====
-- What `cycle` of dhan_cas_bot/engine.py decides for an open position, as a whole.
use dhan_bot.Risk.{sell_fees, default_fees}
use dhan_bot.Engine.Signals.{latest, is_some}
use dhan_bot.Runtime.{position_open}
use dhan_bot.Ledger.{LifecycleRow, lookup}
use dhan_bot.Domain.{Instrument, OptionBook, top_bid}
use dhan_bot.Engine.State.{Session}
use dhan_bot.Engine.Leave.{
  decide, Peaks, price_reason, state_reason, held_or_left, with_prices, with_stored, price_of,
  follow_peaks, stop_without_final, signal_gone,
}
use dhan_bot.Engine.Staying.{
  IsQuiet, IsLagging, state_reason-IsQuiet, price_reason-IsLagging, or_if-stays,
}
use dhan_bot.Strategy.{intrinsic, Reference}
use dhan_bot.Prelude.{
  none, String, ℕ, Option, str_eq, ◌≡◌, false, ok, Bool-cases, arith, true, inl, some, not,
  >>=-eq-ok, eq_iff, ◌∙◌, sym, ◌||◌, leb, ap, ◌*◌, inr,
}

-- What the prices must be, where there are an observation, a reference and a book.
abbrev pub Priced : Instrument → Option ℕ → Option Reference → Option OptionBook → Session → Type 0
Priced i (some index) (some r) (some b) e =
    (fees : ℕ) × (sell_fees default_fees (price_of (top_bid b) * i.lot_size) 1 ≡ ok fees)
    × IsLagging i r.value index b fees
        (follow_peaks (intrinsic i.option_type i.strike index) (price_of (top_bid b)) e)
Priced i _ _ _ e = Unit {0}

with_prices-Priced :
    (reason : String) (i : Instrument) (index : Option ℕ) (r : Option Reference)
    (b : Option OptionBook) (e e' : Session)
    → with_prices reason i index r b e ≡ ok ("", e')
    → (reason ≡ "") × Priced i index r b e
with_prices-Priced reason i none r b e e' h = (ground (arith, h), tt)
with_prices-Priced reason i (some index) none b e e' h = (ground (arith, h), tt)
with_prices-Priced reason i (some index) (some r) none e e' h = (ground (arith, h), tt)
with_prices-Priced reason i (some index) (some r) (some b) e e' h =
    let bid = price_of (top_bid b) in
    let e1 = follow_peaks (intrinsic i.option_type i.strike index) bid e in
    let (fees, paid, k) =
      >>=-eq-ok (sell_fees default_fees (bid * i.lot_size) 1)
        (λ fees. ok (price_reason reason i r.value index b fees e1, e1)) h in
    let blank : price_reason reason i r.value index b fees e1 ≡ "" = ground (arith, k) in
    let (first, lagging) = price_reason-IsLagging reason i r.value index b fees e1 blank in
    (first, (fees, paid, lagging))

held-blank :
    (reason : String) (e e' : Session)
    → held_or_left (reason, e) ≡ ("", e')
    → (reason ≡ "") × (e'.runtime.state ≡ position_open)
held-blank reason e e' h = elim (Bool-cases (str_eq reason "")) [
  | inl blank ↦
      let d = rw blank at h in ((eq_iff reason "").0 blank, sym (ap (λ p. p.1.runtime.state) d))
  | inr set ↦ let d = rw set at h in absurd (ground (arith, ap (λ p. p.0) d, eq_iff reason "", set))
]

-- What a decision that gives no reason has found.
pub decide-IsQuiet :
    (day : String) (stored : Peaks) (row : LifecycleRow) (i : Instrument) (time : ℕ)
    (e e' : Session)
    → decide day stored row i time e ≡ ok ("", e')
    → let s = with_stored stored e in
      let book = lookup i.security_id e.books in
      IsQuiet day stored row book time s
      × Priced i (latest e.observations) e.reference book s
      × (e'.runtime.state ≡ position_open)
unfolding decide
decide-IsQuiet day stored row i time e e' h =
    let s = with_stored stored e in
    let book = lookup i.security_id e.books in
    let reason = state_reason day stored row book time s in
    let (found, priced, done) =
      >>=-eq-ok (with_prices reason i (latest e.observations) e.reference book s)
        (λ found. ok (held_or_left found)) h in
    let kept : held_or_left (found.0, found.1) ≡ ("", e') = ground (arith, done) in
    let (blank, state) = held-blank found.0 found.1 e' kept in
    let (quiet, prices) =
      with_prices-Priced reason i (latest e.observations) e.reference book s found.1
        (priced ∙ ap (λ r. ok (r, found.1)) blank) in
    (state_reason-IsQuiet day stored row book time s quiet, prices, state)

state_reason-stays :
    (day : String) (stored : Peaks) (row : LifecycleRow) (book : Option OptionBook) (time : ℕ)
    (e : Session)
    → str_eq e.exit_reason "" ≡ false
    → state_reason day stored row book time e ≡ e.exit_reason
unfolding state_reason
state_reason-stays day stored row book time e h =
    rw (or_if-stays e.exit_reason stored.exit true h) (
      rw (or_if-stays e.exit_reason "OPTION_BOOK_UNAVAILABLE" (not (is_some book)) h) (
        rw
          (or_if-stays e.exit_reason "RECOVERY_OR_SIGNAL_UNAVAILABLE"
            (not (str_eq row.session_id day)
              || not e.signal_connected
              || not e.market_connected
              || not (is_some e.reference))
            h)
          (rw (or_if-stays e.exit_reason "TIME_EXIT" (leb 56340000000 time) h) (
            rw
              (or_if-stays e.exit_reason "COLLECTION_STOPPED_NO_FINAL_INPUT" (stop_without_final e)
                h)
              (or_if-stays e.exit_reason "SIGNAL_UNAVAILABLE" (signal_gone e.status) h)))))

price_reason-stays :
    (reason : String) (i : Instrument) (reference index : ℕ) (b : OptionBook) (fees : ℕ)
    (e : Session)
    → str_eq reason "" ≡ false
    → price_reason reason i reference index b fees e ≡ reason
unfolding price_reason
price_reason-stays reason i reference index b fees e h = rw h (ground arith)

with_prices-stays :
    (reason : String) (i : Instrument) (index : Option ℕ) (r : Option Reference)
    (b : Option OptionBook) (e : Session) (found : String × Session)
    → str_eq reason "" ≡ false
    → with_prices reason i index r b e ≡ ok found
    → found.0 ≡ reason
with_prices-stays reason i none r b e found s h = ground (arith, h)
with_prices-stays reason i (some index) none b e found s h = ground (arith, h)
with_prices-stays reason i (some index) (some r) none e found s h = ground (arith, h)
with_prices-stays reason i (some index) (some r) (some b) e found s h =
    let bid = price_of (top_bid b) in
    let e1 = follow_peaks (intrinsic i.option_type i.strike index) bid e in
    let (fees, _, k) =
      >>=-eq-ok (sell_fees default_fees (bid * i.lot_size) 1)
        (λ fees. ok (price_reason reason i r.value index b fees e1, e1)) h in
    let first : price_reason reason i r.value index b fees e1 ≡ found.0 = ground (arith, k) in
    sym first ∙ price_reason-stays reason i r.value index b fees e1 s

-- A decision gives and keeps the reason to leave that the session has, whatever the feeds, the books, the
-- peaks and the time are.
pub decide-stays :
    (day : String) (stored : Peaks) (row : LifecycleRow) (i : Instrument) (time : ℕ)
    (e e' : Session) (reason : String)
    → str_eq e.exit_reason "" ≡ false
    → decide day stored row i time e ≡ ok (reason, e')
    → (reason ≡ e.exit_reason) × (e'.exit_reason ≡ e.exit_reason)
unfolding decide
decide-stays day stored row i time e e' reason set h =
    let s = with_stored stored e in
    let book = lookup i.security_id e.books in
    let first = state_reason day stored row book time s in
    let same = state_reason-stays day stored row book time s set in
    let (found, priced, done) =
      >>=-eq-ok (with_prices first i (latest e.observations) e.reference book s)
        (λ found. ok (held_or_left found)) h in
    let given : found.0 ≡ e.exit_reason =
      with_prices-stays first i (latest e.observations) e.reference book s found (rw same set)
        priced
      ∙ same in
    let left : held_or_left (found.0, found.1) ≡ (reason, e') = ground (arith, done) in
    let still : str_eq found.0 "" ≡ false = rw given set in
    let d = rw still at left in
    (sym (ap (λ p. p.0) d) ∙ given, sym (ap (λ p. p.1.exit_reason) d) ∙ given)
