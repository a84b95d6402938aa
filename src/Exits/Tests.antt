-- ===== src/Exits/Tests.antt =====
-- Runs of dhan_cas_bot/exits.py and dhan_cas_bot/profit_exit.py, and the theorems at concrete inputs.
use dhan_bot.Exits.Band.{sell_limit_in_band}
use dhan_bot.Domain.{top_bid, tick}
use dhan_bot.Exits.Protection.{FloorFits, FloorGrows, observe-ratchets}
use dhan_bot.Exits.Depth.{prices_of, offered, executable_sale_units_prices}
use dhan_bot.Prelude.{
  ℕ, ◌%◌, ◌≤◌, ◌<◌, ◌≡◌, ◌↔◌, ◌⊎◌, inr, refl, arith, some, [], ◌∷◌, pos, true, false, ok, All, take,
  ◌≤ℤ◌,
}
use dhan_bot.Samples.{depth_book}
use dhan_bot.Exits.Sale.{sell_limit, clamped_price, executable_sale_units, sale_slices}
use dhan_bot.Exits.Ratchet.{Policy, Guard, observe, scale, at_floor}

-- Two ticks below the first bid that has a quantity, and ten in an emergency.
sale_run : sell_limit depth_book false ≡ ok 998500
unfolding sell_limit clamped_price top_bid tick
sale_run = refl

emergency_run : sell_limit depth_book true ≡ ok 994500
unfolding sell_limit clamped_price top_bid tick
emergency_run = refl

slices_run : executable_sale_units depth_book 150 ≡ (75, 999500) ∷ (75, 999000) ∷ []
unfolding executable_sale_units sale_slices
slices_run = refl

executable_sale_units_prices_example :
    (prices_of (executable_sale_units depth_book 3) ≡ take 3 (offered depth_book.bids))
    × All (λ (s : ℕ × ℕ). 0 < s.0) (executable_sale_units depth_book 3)
executable_sale_units_prices_example = executable_sale_units_prices depth_book 3

sell_limit_in_band_example :
    (v : ℕ) × (sell_limit depth_book true ≡ ok v)
    × (v % 500 ≡ 0)
    × (500 ≤ v)
    × (10000 ≤ v)
    × (v ≤ 2000000)
sell_limit_in_band_example =
    sell_limit_in_band depth_book true (inr refl) (omega arith) (omega arith, refl, omega arith)

abbrev half : Policy
half = record { num = 1; den = 2 }

abbrev armed : Guard
armed = record { peak = pos 1000; floor = some (pos 1000); triggered = false }

-- Half of a peak of 1000 is kept: 501 does not trigger, 500 does.
ratchet_run : observe half (pos 500) (pos 100) (some armed) ≡ ok (record armed { triggered = true })
unfolding observe scale
ratchet_run = refl

observe-ratchets_example :
    (g : Guard) × (observe half (pos 501) (pos 100) (some armed) ≡ ok g)
    × FloorFits half g.peak g.floor
    × (pos 1000 ≤ℤ g.peak)
    × (pos 501 ≤ℤ g.peak)
    × FloorGrows (some (pos 1000)) g.floor
    × ((g.triggered ≡ true) ↔ ((false ≡ true) ⊎ (at_floor (scale 2 (pos 501)) g.floor ≡ true)))
    × (g.peak ≡ pos 501 → g.triggered ≡ false)
unfolding scale
observe-ratchets_example =
    observe-ratchets half (pos 501) (pos 100) (some armed) (omega arith) (omega arith)
