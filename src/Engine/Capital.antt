-- ===== src/Engine/Capital.antt =====
-- `_allocation` of dhan_cas_bot/engine.py: the capital that an entry may still spend.
use dhan_bot.Risk.{Allocation, start}
use dhan_bot.Ledger.{Db, LifecycleRow, no_totals, lifecycle_totals}
use dhan_bot.Engine.State.{Codec, Session}
use dhan_bot.Ledger.Totals.{Totals}
use dhan_bot.Prelude.{
  [], none, ◌∷◌, ◌>>=◌, Option, String, Bool, List, ℤ, some, ◌+ℤ◌, Result, true, false, ℕ,
  if◌then◌else◌, ok, max_ℤ, pos_part, pos, min_ℤ, ◌||◌, ◌-ℤ◌, str_eq, ◌+◌,
}
use dhan_bot.Domain.{mandate_scope, DebitScope, Mandate, FundsSnapshot}

-- The profit and loss of the closed lifecycles.
unfoldable pub closed_profit : Db → List LifecycleRow → Result ℤ
closed_profit db [] = ok (pos 0)
closed_profit db (r ∷ rs) = do
  earned ←
      if r.is_closed
      then (lifecycle_totals r.lifecycle_id db >>= λ t. ok (t.sale_credit -ℤ pos t.entry_debit))
      else ok (pos 0)
  rest ← closed_profit db rs
  ok (earned +ℤ rest)

-- The mandate's capital with what was earned, where that is to be used again, and less what was lost.
abbrev pub worked_capital : Mandate → ℤ → ℤ
worked_capital m profit =
    m.allocated_capital +ℤ (if m.reinvest_realized_profit then profit else min_ℤ (pos 0) profit)

abbrev pub is_mandate_scope : DebitScope → Bool
is_mandate_scope mandate_scope = true
is_mandate_scope _ = false

-- What the lifecycles that the cap counts have spent and reserved.
unfoldable pub counted_debit : DebitScope → String → Db → List LifecycleRow → Result ℕ
counted_debit scope day db [] = ok 0
counted_debit scope day db (r ∷ rs) = do
  counted ←
      if is_mandate_scope scope || str_eq r.session_id day
      then (lifecycle_totals r.lifecycle_id db >>= λ t. ok (t.entry_debit + t.reserved))
      else ok 0
  rest ← counted_debit scope day db rs
  ok (counted + rest)

-- `max(ZERO, cap - debit)`, where there is a cap.
unfoldable pub cap_remaining : Mandate → String → Db → Result (Option ℕ)
cap_remaining m day db = elim m.cumulative_entry_debit_cap [
  | none ↦ ok none
  | some cap ↦ counted_debit m.debit_cap_scope day db db.lifecycles >>= λ debit.
      ok (some (pos_part (cap -ℤ pos debit)))
]

-- An open lifecycle keeps the bankroll that it began with.
abbrev pub bankroll_of : Option LifecycleRow → ℤ → ℤ → ℤ → ℤ
bankroll_of (some row) capital probe spendable = row.bankroll
bankroll_of none capital probe spendable = max_ℤ (pos 0) (min_ℤ (capital -ℤ probe) spendable)

abbrev pub spent_by : Option LifecycleRow → Db → Result Totals
spent_by none db = ok no_totals
spent_by (some row) db = lifecycle_totals row.lifecycle_id db

unfoldable pub allocation :
    Codec → Mandate → FundsSnapshot → Option LifecycleRow → Session → Result Allocation
allocation c m funds row e = do
  totals ← spent_by row e.db
  profit ← closed_profit e.db e.db.lifecycles
  probe ← lifecycle_totals "route-probe" e.db
  cap ← cap_remaining m (c.of_day e.session_id) e.db
  ok (
      start
        (bankroll_of row (worked_capital m profit) (pos probe.entry_debit -ℤ probe.sale_credit)
          funds.spendable_cash)
        funds.spendable_cash totals.entry_debit totals.reserved cap)
