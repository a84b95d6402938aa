-- ===== src/Risk/Tests.antt =====
-- Runs of dhan_cas_bot/risk.py on concrete amounts, and its theorems at concrete inputs.
use dhan_bot.Samples.{depth_book}
use dhan_bot.Prelude.{◌*◌, ◌≤◌, ◌<◌, ◌+◌, ◌≡◌, ◌↔◌, refl, none, some, [], ◌∷◌, pos, ◌≤ℤ◌, true, ok}
use dhan_bot.Domain.{rupee, tick}
use dhan_bot.Risk.Fees.{
  default_fees, buy_fees, sell_fees, worst_case_entry_cash, ceil_paise, floor_paise, common_fees,
  upper, reserve_cash,
}
use dhan_bot.Risk.Capital.{lifecycle_ceiling, start, permits, candidate_quantities, ladder_capacity}
use dhan_bot.Risk.Envelope.{Covered, billed_apart, billed_apart-Covered}
use dhan_bot.Risk.Budget.{start-permits_iff}

-- 75 units at 100 rupees: 7500 rupees of turnover cost 27.78 rupees to buy.
buy_run : buy_fees default_fees 75000000 1 ≡ ok 277800
unfolding buy_fees common_fees upper
buy_run = refl

ceiling_run : lifecycle_ceiling (pos (40000 * rupee)) ≡ 10000 * rupee
unfolding lifecycle_ceiling floor_paise
ceiling_run = refl

-- The book of the sample has 150 units at or below 100.05 rupees, and 10,000 rupees buy one lot.
quantities_run :
    candidate_quantities depth_book 1000500
      (start (pos 100000000) (pos 100000000) 0 0 none)
      1
      default_fees
    ≡ ok (75 ∷ [])
unfolding candidate_quantities ladder_capacity tick worst_case_entry_cash buy_fees common_fees upper
    permits reserve_cash ceil_paise start lifecycle_ceiling floor_paise
quantities_run = refl

billed_apart-Covered_example :
    Covered
      (billed_apart (buy_fees default_fees) (50000000 ∷ 25000000 ∷ []))
      (buy_fees default_fees 75000000 2)
    × Covered
        (billed_apart (sell_fees default_fees) (50000000 ∷ 25000000 ∷ []))
        (sell_fees default_fees 75000000 2)
billed_apart-Covered_example = billed_apart-Covered default_fees 50000000 (25000000 ∷ [])

start-permits_iff_example :
    (permits (start (pos 100000000) (pos 90000000) 1000 2000 (some 5000)) 4000 ≡ true) ↔ (
      (0 < 4000)
      × (1000 + 2000 + 4000 ≤ lifecycle_ceiling (pos 100000000))
      × (pos 4000 ≤ℤ pos 90000000)
      × (4000 ≤ 5000))
start-permits_iff_example =
    start-permits_iff (pos 100000000) (pos 90000000) 1000 2000 (some 5000) 4000
