-- ===== src/Risk/Capital.antt =====
-- The capital rule, `class Allocation` and the affordable quantities of dhan_cas_bot/risk.py.
use dhan_bot.Prelude.{
  ℕ, zero, suc, ◌+◌, ◌-◌, ◌*◌, ◌/◌, min, Bool, true, false, Option, none, some, List, [], ◌∷◌, ℤ,
  pos, pos_part, ltb_ℤ, leb_ℤ, min_ℤ, ltb, leb, ◌==◌, str_eq, ◌||◌, sum_of, select, Result, ok,
  raise_if, ◌>>=◌, ◌>>◌, if◌then◌else◌,
}
use dhan_bot.Domain.{rupee, Level, OptionBook, tick, FundsSnapshot}
use dhan_bot.Risk.Fees.{FeeSchedule, floor_paise, reserve_cash, worst_case_entry_cash}

-- `lifecycle_ceiling`; a quarter of `n` units, rounded down to paise.
unfoldable pub lifecycle_ceiling : ℤ → ℕ
unfolding floor_paise
lifecycle_ceiling bankroll =
    if leb_ℤ bankroll (pos 0)
    then 0
    else if ltb_ℤ bankroll (pos (40000 * rupee))
    then min (pos_part bankroll) (10000 * rupee)
    else floor_paise (pos_part bankroll / 4)

pub record Allocation : Type 0 where
  pub bankroll : ℤ
  pub ceiling : ℕ
  pub remaining : ℕ
  pub spendable_cash : ℕ
  pub selected_cap_remaining : Option ℕ

-- `Allocation.start`. Subtraction on ℕ stops at 0, which is the source's `max(Decimal("0"), …)`.
unfoldable pub start : ℤ → ℤ → ℕ → ℕ → Option ℕ → Allocation
start bankroll spendable consumed reserved cap = record {
  bankroll = bankroll;
  ceiling = lifecycle_ceiling bankroll;
  remaining = lifecycle_ceiling bankroll - consumed - reserved;
  spendable_cash = pos_part spendable;
  selected_cap_remaining = cap;
}

abbrev within_cap : Option ℕ → ℕ → Bool
within_cap none cash = true
within_cap (some cap) cash = leb cash cap

-- `Allocation.permits`
unfoldable pub permits : Allocation → ℕ → Bool
permits a cash =
    if leb cash 0
    then false
    else if ltb a.remaining cash || ltb a.spendable_cash cash
    then false
    else within_cap a.selected_cap_remaining cash

abbrev pub depth_at : ℕ → List Level → ℕ
depth_at limit asks = sum_of (λ (l : Level). l.quantity) (select (λ l. leb l.price limit) asks)

-- `ladder_capacity`
unfoldable pub ladder_capacity : OptionBook → ℕ → Result ℕ
unfolding tick
ladder_capacity book limit = do
  tick book.instrument limit
  let total = depth_at limit book.asks
  ok (total / book.instrument.lot_size * book.instrument.lot_size)

-- `range(lot, available + 1, lot)`, as its first `n` members from `from` on
abbrev pub lots_from : ℕ → ℕ → ℕ → List ℕ
lots_from from lot zero = []
lots_from from lot (suc n) = from ∷ lots_from (from + lot) lot n

abbrev pub keep_permitted : Allocation → ℕ → ℕ → FeeSchedule → List ℕ → Result (List ℕ)
keep_permitted a limit children f [] = ok []
keep_permitted a limit children f (q ∷ qs) =
    let rest = keep_permitted a limit children f qs in
    do
      cash ← worst_case_entry_cash q limit children f
      more ← rest
      ok (if permits a (reserve_cash cash) then q ∷ more else more)

-- `candidate_quantities`; the generator's values as a list. `range` refuses a step of zero.
unfoldable pub candidate_quantities :
    OptionBook → ℕ → Allocation → ℕ → FeeSchedule → Result (List ℕ)
candidate_quantities book limit a children f = do
  capacity ← ladder_capacity book limit
  let lot = book.instrument.lot_size
  let available = min capacity book.instrument.freeze_qty
  raise_if (lot == 0) "range() arg 3 must not be zero"
  keep_permitted a limit children f (lots_from lot lot (available / lot))

-- `reconcile_funds`
unfoldable pub reconcile_funds : FundsSnapshot → ℤ → Result ℤ
reconcile_funds s capital = do
  raise_if (str_eq s.broker_account "") "broker account is missing"
  raise_if (ltb_ℤ capital (pos 0)) "mandate capital cannot be negative"
  ok (if leb_ℤ capital (pos 0) then s.strategy_equity else min_ℤ s.strategy_equity capital)
