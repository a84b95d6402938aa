-- ===== src/Exits/Sale.antt =====
-- dhan_cas_bot/exits.py.
use dhan_bot.Prelude.{
  ℕ, ◌-◌, ◌*◌, min, max, Bool, Option, none, some, List, [], ◌∷◌, leb, ◌==◌, Result, ok, raise_if,
  ◌>>◌, if◌then◌else◌, ceil_div, not, ◌&&◌,
}
use dhan_bot.Domain.{Level, OptionBook, tick, top_bid, is_none}

abbrev pub at_least : Option ℕ → ℕ → ℕ
at_least none v = v
at_least (some l) v = max v l

abbrev pub at_most : Option ℕ → ℕ → ℕ
at_most none v = v
at_most (some u) v = min v u

-- The bid less some ticks, or one tick where there is no bid. Subtraction stops at 0, below the
-- tick that the next step raises the price to.
abbrev pub below_bid : Option Level → ℕ → ℕ → ℕ
below_bid none size ticks = size
below_bid (some b) size ticks = b.price - size * ticks

-- The clamped price before it is rounded up to a tick.
unfoldable pub clamped_price : OptionBook → Bool → ℕ
clamped_price book emergency =
    let i = book.instrument in
    let value = below_bid (top_bid book) i.tick_size (if emergency then 10 else 2) in
    at_most i.upper_limit (at_least i.lower_limit (max i.tick_size value))

unfoldable pub sell_limit : OptionBook → Bool → Result ℕ
sell_limit book emergency = do
  raise_if (is_none (top_bid book) && not emergency) "no current bid for normal sale"
  let size = book.instrument.tick_size
  let value = ceil_div (clamped_price book emergency) size * size
  tick book.instrument value
  ok value

-- The loop of `executable_sale_units`: `remaining` units are mapped onto the levels in order.
unfoldable pub sale_slices : ℕ → List Level → List (ℕ × ℕ)
sale_slices remaining [] = []
sale_slices remaining (l ∷ ls) =
    let units = min remaining l.quantity in
    let rest = sale_slices (remaining - units) ls in
    if leb remaining 0 then [] else if units == 0 then rest else (units, l.price) ∷ rest

unfoldable pub executable_sale_units : OptionBook → ℕ → List (ℕ × ℕ)
executable_sale_units book quantity = if leb quantity 0 then [] else sale_slices quantity book.bids
