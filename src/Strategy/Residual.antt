-- ===== src/Strategy/Residual.antt =====
-- `find_final_opportunity` of dhan_cas_bot/strategy.py: what a confirmed final value leaves to buy.
use dhan_bot.Strategy.Search.{child_of}
use dhan_bot.Strategy.Candidates.{
  Opportunity, insert_price, choose, price_candidate, cash_units, gather,
}
use dhan_bot.Strategy.Sizing.{permitted_limit, intrinsic, most_lots, affordable}
use dhan_bot.Risk.{Allocation, FeeSchedule, ladder_capacity}
use dhan_bot.Domain.{Level, Instrument, OptionBook, top_ask}
use dhan_bot.Prelude.{
  ℕ, ◌+◌, ◌*◌, ◌/◌, min, Bool, true, false, Option, none, some, List, [], ◌∷◌, leb, ◌&&◌, ◌==◌,
  Result, ok, ◌>>=◌, ◌>>◌, if◌then◌else◌,
}
use dhan_bot.Settlement.Final.{FinalValue, validate}

-- The asks a tick or more below the exercise value, in ascending order of price.
unfoldable pub residual_limits : Instrument → ℕ → List Level → List ℕ
residual_limits i target [] = []
residual_limits i target (l ∷ ls) =
    let rest = residual_limits i target ls in
    if leb (l.price + i.tick_size) target && permitted_limit i l.price
    then insert_price l.price rest
    else rest

abbrev pub residual_of :
    Instrument → Allocation → FeeSchedule → ℕ → ℕ → ℕ → Result (List Opportunity)
residual_of i a f target limit lots =
    if lots == 0
    then ok []
    else price_candidate i "FINAL_RESIDUAL" a f (child_of i) target limit (lots * i.lot_size)

-- The most that the cash buys at one limit.
unfoldable pub residual_at :
    OptionBook → Allocation → FeeSchedule → ℕ → ℕ → Result (List Opportunity)
residual_at book a f target limit = do
  let i = book.instrument
  capacity ← ladder_capacity book limit
  let units = min capacity (cash_units a limit i.lot_size)
  lots ← most_lots (affordable a f limit i.lot_size (child_of i)) (units / i.lot_size)
  residual_of i a f target limit lots

abbrev pub has_ask : Option Level → Bool
has_ask none = false
has_ask (some l) = true

unfoldable pub residual_in_book :
    FinalValue → Allocation → FeeSchedule → OptionBook → Result (List Opportunity)
residual_in_book final a f b =
    let i = b.instrument in
    let target = intrinsic i.option_type i.strike final.value in
    if i.expiry == final.trading_date && has_ask (top_ask b)
    then gather (λ (p : ℕ). residual_at b a f target p) (residual_limits i target b.asks)
    else ok []

unfoldable pub find_final_opportunity :
    FinalValue → List OptionBook → Allocation → FeeSchedule → Result (Option Opportunity)
find_final_opportunity final books a f = do
  validate final
  xs ← gather (λ (b : OptionBook). residual_in_book final a f b) books
  choose xs
