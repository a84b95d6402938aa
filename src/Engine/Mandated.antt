-- ===== src/Engine/Mandated.antt =====
-- What `_allocation` of dhan_cas_bot/engine.py lets an entry spend.
use dhan_bot.Risk.Budget.{CapAllows, start-permits_iff}
use dhan_bot.Risk.{Allocation, permits, lifecycle_ceiling, start}
use dhan_bot.Ledger.{Db, LifecycleRow}
use dhan_bot.Engine.State.{Codec, Session}
use dhan_bot.Domain.{Mandate, FundsSnapshot}
use dhan_bot.Ledger.Totals.{Totals, lifecycle_totals}
use dhan_bot.Prelude.{
  none, refl, ◌-ℤ◌, ℤ, String, ℕ, Option, ◌<◌, ◌≡◌, ◌≤◌, some, ok, pos_part, pos, >>=-eq-ok, ◌+◌,
  arith, ◌≤ℤ◌, subst, sym, true, ◌⊎◌, max_ℤ, min_ℤ, ◌>>=◌,
}
use dhan_bot.Engine.Capital.{
  allocation, bankroll_of, cap_remaining, counted_debit, spent_by, closed_profit, worked_capital,
}

-- The cash fits in what the cap leaves, where there is a cap.
abbrev pub FitsCap : Mandate → String → Db → ℕ → Type 0
FitsCap m day db cash =
    (cap : ℤ)
    → m.cumulative_entry_debit_cap ≡ some cap
    → (debit : ℕ) × (counted_debit m.debit_cap_scope day db db.lifecycles ≡ ok debit)
      × (pos (debit + cash) ≤ℤ cap)

below_cap :
    (cap : ℤ) (debit cash : ℕ)
    → 0 < cash
    → cash ≤ pos_part (cap -ℤ pos debit)
    → pos (debit + cash) ≤ℤ cap
unfolding ◌-ℤ◌
below_cap cap debit cash h k = ground arith

cap_remaining-FitsCap :
    (m : Mandate) (day : String) (db : Db) (left : Option ℕ) (cash : ℕ)
    → 0 < cash
    → cap_remaining m day db ≡ ok left
    → CapAllows left cash
    → FitsCap m day db cash
unfolding cap_remaining
cap_remaining-FitsCap m day db left cash some_cash h k cap same =
    let found = rw same at h in
    let (debit, e, done) =
      >>=-eq-ok (counted_debit m.debit_cap_scope day db db.lifecycles)
        (λ debit. ok (some (pos_part (cap -ℤ pos debit)))) found in
    let room : some (pos_part (cap -ℤ pos debit)) ≡ left = ground (arith, done) in
    let fits : cash ≤ pos_part (cap -ℤ pos debit) = subst (λ o. CapAllows o cash) (sym room) k in
    (debit, e, below_cap cap debit cash some_cash fits)

abbrev pub IsBankroll : Option LifecycleRow → ℤ → ℤ → ℤ → Type 0
IsBankroll (some row) capital spendable b = b ≡ row.bankroll
IsBankroll none capital spendable b =
    (pos 0 ≤ℤ b) × ((b ≡ pos 0) ⊎ ((b ≤ℤ spendable) × (b ≤ℤ capital)))

new_bankroll :
    (capital spendable : ℤ)
    → let b = max_ℤ (pos 0) (min_ℤ capital spendable) in
      (pos 0 ≤ℤ b) × ((b ≡ pos 0) ⊎ ((b ≤ℤ spendable) × (b ≤ℤ capital)))
new_bankroll capital spendable = ground arith

bankroll_of-IsBankroll :
    (row : Option LifecycleRow) (capital probe spendable : ℤ)
    → IsBankroll row (capital -ℤ probe) spendable (bankroll_of row capital probe spendable)
unfolding ◌-ℤ◌
bankroll_of-IsBankroll (some row) capital probe spendable = refl
bankroll_of-IsBankroll none capital probe spendable = new_bankroll (capital -ℤ probe) spendable

-- An allocation that is computed without an error permits an entry only when its cash is positive
-- and, with what the open lifecycle has spent and reserved, is within the ceiling of its bankroll, and
-- within the spendable cash and the cap: the debits that the cap counts and the entry are together
-- no more than the cap. The bankroll of an open lifecycle is the one it began with; a new one's is not
-- negative, and nothing, or at most the spendable cash and at most the mandate's capital with
-- the profit that counts, less what the probe of the route cost.
pub allocation-FitsCap :
    (c : Codec) (m : Mandate) (funds : FundsSnapshot) (row : Option LifecycleRow) (e : Session)
    (a : Allocation)
    → allocation c m funds row e ≡ ok a
    → (totals probe : Totals) × (profit : ℤ) × (spent_by row e.db ≡ ok totals)
      × (closed_profit e.db e.db.lifecycles ≡ ok profit)
      × (lifecycle_totals "route-probe" e.db ≡ ok probe)
      × IsBankroll row
          (worked_capital m profit -ℤ (pos probe.entry_debit -ℤ probe.sale_credit))
          funds.spendable_cash
          a.bankroll
      × ((cash : ℕ)
          → permits a cash ≡ true
          → (0 < cash)
            × (totals.entry_debit + totals.reserved + cash ≤ lifecycle_ceiling a.bankroll)
            × (pos cash ≤ℤ funds.spendable_cash)
            × FitsCap m (c.of_day e.session_id) e.db cash)
unfolding allocation start
allocation-FitsCap c m funds row e a h =
    let day = c.of_day e.session_id in
    let made = λ (t : Totals) (profit : ℤ) (probe : Totals) (cap : Option ℕ).
      start
        (bankroll_of row (worked_capital m profit) (pos probe.entry_debit -ℤ probe.sale_credit)
          funds.spendable_cash)
        funds.spendable_cash t.entry_debit t.reserved cap in
    let (totals, own, h1) =
      >>=-eq-ok (spent_by row e.db)
        (λ t. closed_profit e.db e.db.lifecycles >>= λ profit.
          lifecycle_totals "route-probe" e.db >>= λ probe.
          cap_remaining m day e.db >>= λ cap. ok (made t profit probe cap))
        h in
    let (profit, earned, h2) =
      >>=-eq-ok (closed_profit e.db e.db.lifecycles)
        (λ profit. lifecycle_totals "route-probe" e.db >>= λ probe.
          cap_remaining m day e.db >>= λ cap. ok (made totals profit probe cap))
        h1 in
    let (probe, cost, h3) =
      >>=-eq-ok (lifecycle_totals "route-probe" e.db)
        (λ probe. cap_remaining m day e.db >>= λ cap. ok (made totals profit probe cap)) h2 in
    let (cap, left, h4) =
      >>=-eq-ok (cap_remaining m day e.db) (λ cap. ok (made totals profit probe cap)) h3 in
    let bankroll =
      bankroll_of row (worked_capital m profit) (pos probe.entry_debit -ℤ probe.sale_credit)
        funds.spendable_cash in
    let same : made totals profit probe cap ≡ a = ground (arith, h4) in
    let (funded, allowed) =
      subst
        (λ (x : Allocation).
          IsBankroll row (worked_capital m profit -ℤ (pos probe.entry_debit -ℤ probe.sale_credit))
            funds.spendable_cash x.bankroll
          × ((cash : ℕ)
              → permits x cash ≡ true
              → (0 < cash)
                × (totals.entry_debit + totals.reserved + cash ≤ lifecycle_ceiling x.bankroll)
                × (pos cash ≤ℤ funds.spendable_cash)
                × FitsCap m day e.db cash))
        same
        (
          bankroll_of-IsBankroll row (worked_capital m profit)
              (pos probe.entry_debit -ℤ probe.sale_credit) funds.spendable_cash,
          λ cash allowed.
              let (some_cash, within, spendable, in_cap) =
                (start-permits_iff bankroll funds.spendable_cash totals.entry_debit totals.reserved
                    cap cash).0
                  allowed in
              (
                some_cash,
                within,
                spendable,
                cap_remaining-FitsCap m day e.db cap cash some_cash left in_cap,
              ),
        ) in
    (totals, probe, profit, own, earned, cost, funded, allowed)
