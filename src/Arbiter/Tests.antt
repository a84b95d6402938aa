-- ===== src/Arbiter/Tests.antt =====
-- Rows that dhan_cas_bot/strategy_arbiter.py chooses among.
use dhan_bot.Domain.{ce, pe}
use dhan_bot.Arbiter.Selection.{
  select_executable, Scored, measured_cash_per_minute, first_best, selected,
  experimental_execution_quality, conflicting_unranked_signals,
}
use dhan_bot.Prelude.{[], ◌∷◌, none, some, refl, List, pos, ◌≡◌, ◌⊎◌}
use dhan_bot.Arbiter.Best.{select_executable-IsBest, IsMeasured, IsExperimental}

abbrev steady : Scored
steady = record {
  strategy = "A";
  side = ce;
  profit_per_minute = some (pos 5);
  friction_fraction = 3;
  holding_minutes = 10;
}

abbrev rows : List Scored
rows =
    steady
    ∷ record steady { strategy = "B"; profit_per_minute = some (pos 7) }
    ∷ record steady { strategy = "C"; profit_per_minute = none }
    ∷ []

abbrev fast : Scored
fast = record steady { strategy = "B"; profit_per_minute = some (pos 7) }

fast_run : select_executable rows ≡ (some fast, measured_cash_per_minute, selected)
unfolding select_executable first_best
fast_run = refl

-- Rows without a rate on both sides: nothing is chosen.
conflict_run :
    select_executable (
      record steady { profit_per_minute = none }
      ∷ record steady { profit_per_minute = none; side = pe }
      ∷ [])
    ≡ (none, experimental_execution_quality, conflicting_unranked_signals)
unfolding select_executable first_best
conflict_run = refl

select_executable-IsBest_example :
    ((measured_cash_per_minute ≡ measured_cash_per_minute) × IsMeasured rows fast)
    ⊎ ((measured_cash_per_minute ≡ experimental_execution_quality) × IsExperimental rows fast)
select_executable-IsBest_example =
    select_executable-IsBest rows fast measured_cash_per_minute fast_run
