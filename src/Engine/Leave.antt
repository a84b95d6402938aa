-- ===== src/Engine/Leave.antt =====
-- How `cycle` of dhan_cas_bot/engine.py decides to hold or to leave a position: the reasons in their
-- order, and the peaks. The peaks that the ledger keeps are an argument, read from its JSON text.
use dhan_bot.Exits.{executable_sale_units}
use dhan_bot.Risk.{sell_fees, default_fees}
use dhan_bot.Engine.Signals.{is_unknown, is_some, is_type, latest, direction, streak_of}
use dhan_bot.Runtime.{position_open}
use dhan_bot.Engine.Finality.{has_stopped}
use dhan_bot.Ledger.{LifecycleRow, lookup}
use dhan_bot.Strategy.{Reference, intrinsic, children_of, child_of}
use dhan_bot.Settlement.Final.{one_of}
use dhan_bot.Engine.State.{Session}
use dhan_bot.Prelude.{
  [], none, ◌∷◌, ◌>>=◌, Bool, max, ℕ, Option, String, List, if◌then◌else◌, true, Result, ◌&&◌,
  str_eq, not, some, ok, leb, ◌+◌, ◌||◌, ℤ, ◌-◌, ltb, sub_ℕ, ◌*◌, ◌/◌, length, ◌==◌, leb_ℤ, ltb_ℤ,
  pos, min,
}
use dhan_bot.Domain.{Instrument, OptionBook, Level, CasStatus, top_bid, top_ask}

pub record Peaks : Type 0 where
  pub bid : ℕ
  pub intrinsic : ℕ
  pub exit : String

-- `reason or "…"`, where the second is given only under a condition.
abbrev pub or_if : String → Bool → String → String
or_if reason test other = if not (str_eq reason "") then reason else if test then other else ""

-- `max(self.peak_…, stored …)`
abbrev pub with_stored : Peaks → Session → Session
with_stored stored e = record e {
  peak_bid = max e.peak_bid stored.bid;
  peak_intrinsic = max e.peak_intrinsic stored.intrinsic;
}

abbrev pub stop_without_final : Session → Bool
stop_without_final e = has_stopped e.status && not (is_some e.final_value)

abbrev pub signal_gone : Option CasStatus → Bool
signal_gone none = true
signal_gone (some s) = is_unknown s.phase

-- The reasons that no price is read for; the day ends at 15:39.
unfoldable pub state_reason :
    String → Peaks → LifecycleRow → Option OptionBook → ℕ → Session → String
state_reason day stored row book time e =
    let kept = or_if e.exit_reason true stored.exit in
    let no_book = or_if kept (not (is_some book)) "OPTION_BOOK_UNAVAILABLE" in
    let lost =
      or_if no_book
        (not (str_eq row.session_id day)
          || not e.signal_connected
          || not e.market_connected
          || not (is_some e.reference))
        "RECOVERY_OR_SIGNAL_UNAVAILABLE" in
    let late = or_if lost (leb 56340000000 time) "TIME_EXIT" in
    let stopped = or_if late (stop_without_final e) "COLLECTION_STOPPED_NO_FINAL_INPUT" in
    or_if stopped (signal_gone e.status) "SIGNAL_UNAVAILABLE"

abbrev pub price_of : Option Level → ℕ
price_of none = 0
price_of (some l) = l.price

-- `current - ask <= max(tick, fees / lot)`, without the division.
abbrev pub converged : Instrument → ℕ → ℕ → Option Level → Bool
converged i fees current none = true
converged i fees current (some ask) =
    leb current (ask.price + i.tick_size) || leb ((current - ask.price) * i.lot_size) fees

abbrev pub follow_peaks : ℕ → ℕ → Session → Session
follow_peaks current bid e = record e {
  peak_intrinsic = max e.peak_intrinsic current;
  peak_bid = max e.peak_bid bid;
}

-- The reasons that the prices give, with the peaks up to date in `e`.
unfoldable pub price_reason : String → Instrument → ℕ → ℕ → OptionBook → ℕ → Session → String
price_reason reason i reference index b fees e =
    let current = intrinsic i.option_type i.strike index in
    let bid = price_of (top_bid b) in
    if not (is_type (direction reference index) i.option_type)
    then or_if reason true "DIRECTION_REVERSAL"
    else if ltb (length (streak_of i.security_id e.streaks)) 2
    then or_if reason true "CONTRACT_LAG_INVALIDATED"
    else if converged i fees current (top_ask b)
    then or_if reason true "LAG_CONVERGED"
    else if ltb (current + i.tick_size) e.peak_intrinsic && ltb (bid + i.tick_size) e.peak_bid
    then or_if reason true "JOINT_REVERSAL"
    else reason

abbrev pub with_prices :
    String
    → Instrument
    → Option ℕ
    → Option Reference
    → Option OptionBook
    → Session
    → Result (String × Session)
with_prices reason i (some index) (some r) (some b) e = do
  let bid = price_of (top_bid b)
  fees ← sell_fees default_fees (bid * i.lot_size) 1
  let e' = follow_peaks (intrinsic i.option_type i.strike index) bid e
  ok (price_reason reason i r.value index b fees e', e')
with_prices reason i _ _ _ e = ok (reason, e)

abbrev pub held_or_left : String × Session → String × Session
held_or_left (reason, e) =
    if str_eq reason ""
    then ("", record e { runtime = record e.runtime { state = position_open } })
    else (reason, record e { exit_reason = reason; runtime = record e.runtime { reason = reason } })

-- The reason to leave, empty where the position is held, and the session with it.
unfoldable pub decide :
    String → Peaks → LifecycleRow → Instrument → ℕ → Session → Result (String × Session)
decide day stored row i time e = do
  let book = lookup i.security_id e.books
  let e' = with_stored stored e
  found ←
      with_prices (state_reason day stored row book time e') i (latest e'.observations) e'.reference
        book e'
  ok (held_or_left found)

-- The reasons for which the sale goes in at the emergency price.
abbrev pub is_emergency : String → Bool
is_emergency reason =
    one_of
      ("TIME_EXIT" ∷ "RECOVERY_OR_SIGNAL_UNAVAILABLE" ∷ "SIGNAL_UNAVAILABLE"
        ∷ "OPTION_BOOK_UNAVAILABLE" ∷ "SAVED_SIGNAL_INVALID" ∷ [])
      reason

-- An amount less the charges of a sale for it.
unfoldable pub net_value : ℕ → ℕ → Result ℤ
net_value amount children =
    sell_fees default_fees amount children >>= λ fees. ok (sub_ℕ amount fees)

-- One slice more: the whole lots that are supported then, if selling them for `finite` is no worse than
-- exercise of as many.
unfoldable pub better_units : ℕ → ℕ → ℕ → ℕ → ℕ → Result ℕ
better_units child target lots finite units =
    if lots == 0
    then ok units
    else (net_value finite (children_of lots child) >>= λ sale.
        net_value (target * lots) (children_of lots child) >>= λ same.
        ok (if leb_ℤ same sale then lots else units))

-- The loop over the slices of a sale.
unfoldable pub best_units : Instrument → ℕ → List (ℕ × ℕ) → ℕ → ℕ → ℕ → Result ℕ
best_units i target [] supported cash units = ok units
best_units i target ((n, price) ∷ ladder) supported cash units = do
  let supply = supported + n
  let total = cash + n * price
  let lots = supply / i.lot_size * i.lot_size
  more ← better_units (child_of i) target lots (total - (supply - lots) * price) units
  best_units i target ladder supply total more

-- What a position does once the final value is confirmed: it waits for the settlement with the credit
-- that it expects, sells some units, or goes on to the reasons to leave.
pub data Move : Type 0 where
  await_settlement : ℤ → Move
  sell_units : ℕ → Move
  go_on : Move

abbrev pub ladder_of : Option OptionBook → ℕ → List (ℕ × ℕ)
ladder_of none quantity = []
ladder_of (some b) quantity = executable_sale_units b quantity

abbrev pub move_for : ℤ → ℕ → ℕ → Bool → Bool → Move
move_for credit units quantity leaving booked =
    if ltb_ℤ (pos 0) credit && units == 0 && not leaving
    then await_settlement credit
    else if booked && not (units == 0) && not leaving
    then sell_units (min units quantity)
    else go_on

unfoldable pub final_move : Instrument → ℕ → Option OptionBook → ℕ → String → Result Move
final_move i final book quantity exit_reason = do
  let target = intrinsic i.option_type i.strike final
  units ← best_units i target (ladder_of book quantity) 0 0 0
  credit ← net_value (target * quantity) (children_of quantity (child_of i))
  ok (move_for credit units quantity (not (str_eq exit_reason "")) (is_some book))
