-- ===== src/Arbiter/Selection.antt =====
-- `select_executable` of dhan_cas_bot/strategy_arbiter.py. The decimals of a row are whole numbers of
-- a common unit each.
use dhan_bot.Strategy.{same_type}
use dhan_bot.Prelude.{
  [], ◌∷◌, none, Bool, String, List, ℤ, Option, pos, true, ltb_ℤ, some, ltb, false, select,
  if◌then◌else◌, not, ◌||◌, all, ℕ, leb_ℤ, ◌==◌, ◌&&◌,
}
use dhan_bot.Domain.{OptionType}

-- What the choice reads of a row of `execution_score`.
pub record Scored : Type 0 where
  pub strategy : String
  pub side : OptionType
  pub profit_per_minute : Option ℤ
  pub friction_fraction : ℕ
  pub holding_minutes : ℕ

pub data Basis : Type 0 where
  measured_cash_per_minute experimental_execution_quality : Basis

pub data Verdict : Type 0 where
  selected conflicting_unranked_signals no_positive_estimated_edge : Verdict

abbrev pub is_positive : Option ℤ → Bool
is_positive none = false
is_positive (some v) = ltb_ℤ (pos 0) v

abbrev pub is_unknown_rate : Option ℤ → Bool
is_unknown_rate none = true
is_unknown_rate (some v) = false

abbrev pub rate_of : Scored → ℤ
rate_of r = elim r.profit_per_minute [ none ↦ pos 0 | some v ↦ v ]

-- The keys of `max` and `min`; the first of equals is kept.
abbrev pub is_better : Scored → Scored → Bool
is_better y x =
    ltb_ℤ (rate_of x) (rate_of y)
    || leb_ℤ (rate_of x) (rate_of y)
      && leb_ℤ (rate_of y) (rate_of x)
      && ltb y.friction_fraction x.friction_fraction

abbrev pub is_smoother : Scored → Scored → Bool
is_smoother y x =
    ltb y.friction_fraction x.friction_fraction
    || y.friction_fraction == x.friction_fraction && ltb y.holding_minutes x.holding_minutes

unfoldable pub first_best : (Scored → Scored → Bool) → Scored → List Scored → Scored
first_best better x [] = x
first_best better x (y ∷ ys) = first_best better (if better y x then y else x) ys

abbrev pub one_sided : List Scored → Bool
one_sided [] = true
one_sided (r ∷ rs) = all (λ (s : Scored). same_type s.side r.side) rs

abbrev pub select_unknown : List Scored → Option Scored × Basis × Verdict
select_unknown [] = (none, measured_cash_per_minute, no_positive_estimated_edge)
select_unknown (r ∷ rs) =
    if not (one_sided (r ∷ rs))
    then (none, experimental_execution_quality, conflicting_unranked_signals)
    else (some (first_best is_smoother r rs), experimental_execution_quality, selected)

abbrev pub select_from : List Scored → List Scored → Option Scored × Basis × Verdict
select_from [] unknown_rows = select_unknown unknown_rows
select_from (r ∷ rs) unknown_rows =
    (some (first_best is_better r rs), measured_cash_per_minute, selected)

unfoldable pub select_executable : List Scored → Option Scored × Basis × Verdict
select_executable rows =
    select_from (select (λ (r : Scored). is_positive r.profit_per_minute) rows)
      (select (λ (r : Scored). is_unknown_rate r.profit_per_minute) rows)
