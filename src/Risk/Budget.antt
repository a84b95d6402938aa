-- ===== src/Risk/Budget.antt =====
-- The capital rule and the allocation of dhan_cas_bot/risk.py: what may be spent is bounded by the
-- bankroll, by the ceiling, by the spendable cash and by the selected cap.
use dhan_bot.Prelude.{
  ℕ, ◌+◌, ◌*◌, ◌≤◌, ◌<◌, ◌≡◌, ◌↔◌, true, Option, none, some, ℤ, pos, pos_part, ◌≤ℤ◌, arith,
}
use dhan_bot.Domain.{rupee}
use dhan_bot.Risk.Fees.{ceil_paise, reserve_cash}
use dhan_bot.Risk.Capital.{lifecycle_ceiling, Allocation, start, permits}

-- The ceiling of a lifecycle never falls when the bankroll grows, is at most the positive part of
-- the bankroll, is zero exactly for a bankroll that is not positive, is at most a quarter of a
-- bankroll of 40,000 rupees or more, and is at most 10,000 rupees up to a bankroll of 40,000.
pub lifecycle_ceiling_rule :
    (b c : ℤ)
    → (b ≤ℤ c → lifecycle_ceiling b ≤ lifecycle_ceiling c)
      × (lifecycle_ceiling b ≤ pos_part b)
      × ((lifecycle_ceiling b ≡ 0) ↔ (b ≤ℤ pos 0))
      × (pos (40000 * rupee) ≤ℤ b → lifecycle_ceiling b * 4 ≤ pos_part b)
      × (b ≤ℤ pos (40000 * rupee) → lifecycle_ceiling b ≤ 10000 * rupee)
unfolding lifecycle_ceiling
lifecycle_ceiling_rule b c = ground arith

abbrev pub CapAllows : Option ℕ → ℕ → Type 0
CapAllows none cash = Unit
CapAllows (some cap) cash = cash ≤ cap

permits_iff :
    (a : Allocation) (cash : ℕ)
    → (permits a cash ≡ true) ↔ (
        (0 < cash)
        × (cash ≤ a.remaining)
        × (cash ≤ a.spendable_cash)
        × CapAllows a.selected_cap_remaining cash)
unfolding permits
permits_iff a cash = ground arith

-- An entry is permitted by a started allocation exactly when its cash is positive and, with what
-- the lifecycle has consumed and reserved already, stays within the ceiling of the bankroll,
-- within the spendable cash, and within the selected cap, if there is one.
pub start-permits_iff :
    (bankroll spendable : ℤ) (consumed reserved : ℕ) (cap : Option ℕ) (cash : ℕ)
    → (permits (start bankroll spendable consumed reserved cap) cash ≡ true) ↔ (
        (0 < cash)
        × (consumed + reserved + cash ≤ lifecycle_ceiling bankroll)
        × (pos cash ≤ℤ spendable)
        × CapAllows cap cash)
unfolding start permits
start-permits_iff bankroll spendable consumed reserved cap cash = ground arith

-- A smaller positive amount is permitted wherever a larger one is.
pub permits_down :
    (a : Allocation) (c d : ℕ) → permits a c ≡ true → 0 < d → d ≤ c → permits a d ≡ true
unfolding permits
permits_down a c d h p k = ground arith

-- Rounding a reservation up to paise keeps its order.
pub reserve_cash_mono : (c d : ℕ) → c ≤ d → reserve_cash c ≤ reserve_cash d
unfolding reserve_cash ceil_paise
reserve_cash_mono c d h = omega arith

pub le-reserve_cash : (c : ℕ) → c ≤ reserve_cash c
unfolding reserve_cash ceil_paise
le-reserve_cash c = omega arith
