-- ===== src/Strategy/Sizing.antt =====
-- The sizing of dhan_cas_bot/strategy.py: the intrinsic value, the permitted limits, and the binary
-- search for the most lots that the allocation permits.
use dhan_bot.Prelude.{
  ℕ, zero, suc, ◌+◌, ◌-◌, ◌*◌, ◌/◌, Bool, true, false, Option, none, some, ◌&&◌, ltb, leb, Result,
  ok, err, ◌>>=◌, if◌then◌else◌,
}
use dhan_bot.Domain.{OptionType, ce, pe, Instrument, tick}
use dhan_bot.Risk.{Allocation, FeeSchedule, permits, reserve_cash, worst_case_entry_cash}

-- `intrinsic`; subtraction on ℕ stops at 0, which is the source's `max(…, Decimal("0"))`.
unfoldable pub intrinsic : OptionType → ℕ → ℕ → ℕ
intrinsic ce strike index = index - strike
intrinsic pe strike index = strike - index

abbrev succeeds : Result ℕ → Bool
succeeds (ok v) = true
succeeds (err e) = false

abbrev from_lower : Option ℕ → ℕ → Bool
from_lower none price = true
from_lower (some l) price = leb l price

abbrev to_upper : Option ℕ → ℕ → Bool
to_upper none price = true
to_upper (some u) price = leb price u

-- `permitted_limit`: an exception of `tick` is a no.
unfoldable pub permitted_limit : Instrument → ℕ → Bool
permitted_limit i price =
    succeeds (tick i price)
    && ltb 0 price
    && from_lower i.lower_limit price
    && to_upper i.upper_limit price

-- `(units+child_size-1)//child_size`
abbrev pub children_of : ℕ → ℕ → ℕ
children_of units child = (units + child - 1) / child

-- The test of the search at `lots` lots.
unfoldable pub affordable : Allocation → FeeSchedule → ℕ → ℕ → ℕ → ℕ → Result Bool
affordable a f limit lot child lots = do
  cash ← worst_case_entry_cash (lots * lot) limit (children_of (lots * lot) child) f
  ok (permits a (reserve_cash cash))

-- `while low < high`, with as much fuel as the distance: each round at least halves it.
unfoldable pub search_lots : (ℕ → Result Bool) → ℕ → ℕ → ℕ → Result ℕ
search_lots test zero low high = ok low
search_lots test (suc fuel) low high =
    let middle = (low + high + 1) / 2 in
    let upper_half = search_lots test fuel middle high in
    let lower_half = search_lots test fuel low (middle - 1) in
    if ltb low high
    then (test middle >>= λ fits. if fits then upper_half else lower_half)
    else ok low

-- The loop as the code starts it, from zero lots up to the available ones.
unfoldable pub most_lots : (ℕ → Result Bool) → ℕ → Result ℕ
most_lots test available = search_lots test available 0 available
