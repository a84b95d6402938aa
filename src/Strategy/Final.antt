-- ===== src/Strategy/Final.antt =====
-- Whatever the search with a final value of dhan_cas_bot/strategy.py returns is worth buying.
use dhan_bot.Strategy.Chosen.{choose-All}
use dhan_bot.Strategy.Search.{child_of}
use dhan_bot.Strategy.Worth.{
  insert_price-All, Priced, IsWorth, All-of_ok, gather-All, All-map, All-Unit,
  price_candidate-Priced,
}
use dhan_bot.Strategy.Candidates.{Opportunity, gather, choose, cash_units}
use dhan_bot.Strategy.Sizing.{permitted_limit, intrinsic, most_lots, affordable}
use dhan_bot.Risk.{Allocation, FeeSchedule, ladder_capacity}
use dhan_bot.Settlement.Final.{FinalValue, validate}
use dhan_bot.Domain.{Instrument, Level, OptionBook, top_ask}
use dhan_bot.Strategy.Residual.{
  find_final_opportunity, residual_limits, residual_in_book, residual_at, has_ask, residual_of,
}
use dhan_bot.Prelude.{
  ◌≡◌, ◌≤◌, ◌+◌, ◌*◌, ◌/◌, ◌==◌, ◌&&◌, List, [], ◌∷◌, All, true, ok, some, inl, inr, ℕ, arith, sym,
  subst, min, leb, Bool-cases, >>=-eq-ok, ◌>>=◌,
}

-- A limit that the search tries: permitted, and a tick or more below the exercise value.
abbrev IsResidualLimit : Instrument → ℕ → ℕ → Type 0
IsResidualLimit i target p = (permitted_limit i p ≡ true) × (p + i.tick_size ≤ target)

residual_limits-All :
    (i : Instrument) (target : ℕ) (ls : List Level)
    → All (IsResidualLimit i target) (residual_limits i target ls)
unfolding residual_limits
residual_limits-All i target [] = tt
residual_limits-All i target (l ∷ ls) =
    let rest = residual_limits-All i target ls in
    elim (Bool-cases (leb (l.price + i.tick_size) target && permitted_limit i l.price)) [
      | inl fits ↦ rw fits (
          insert_price-All (IsResidualLimit i target) l.price (residual_limits i target ls)
            (ground arith, ground arith) rest)
      | inr skipped ↦ rw skipped rest
    ]

-- Worth its cost against the exercise value of the final value, on the day of the final value.
abbrev pub IsResidual : FinalValue → Allocation → FeeSchedule → Opportunity → Type 0
IsResidual final a f o =
    let i = o.instrument in
    let target = intrinsic i.option_type i.strike final.value in
    (i.expiry ≡ final.trading_date) × (o.limit_price + i.tick_size ≤ target) × IsWorth a f target o

Priced-IsResidual :
    (final : FinalValue) (a : Allocation) (f : FeeSchedule) (i : Instrument) (p : ℕ)
    (o : Opportunity)
    → i.expiry ≡ final.trading_date
    → p + i.tick_size ≤ intrinsic i.option_type i.strike final.value
    → Priced a f i (intrinsic i.option_type i.strike final.value) p o
    → IsResidual final a f o
Priced-IsResidual final a f i p o day below (worth, same, limit) =
    subst
      (λ (j : Instrument).
        (j.expiry ≡ final.trading_date)
        × (o.limit_price + j.tick_size ≤ intrinsic j.option_type j.strike final.value)
        × IsWorth a f (intrinsic j.option_type j.strike final.value) o)
      (sym same) (day, rw limit below, worth)

module _ (final : FinalValue) (a : Allocation) (f : FeeSchedule) where
  residual_at-Priced :
      (book : OptionBook) (target limit : ℕ) (xs : List Opportunity)
      → permitted_limit book.instrument limit ≡ true
      → residual_at book a f target limit ≡ ok xs
      → All (Priced a f book.instrument target limit) xs
  unfolding residual_at
  residual_at-Priced book target limit xs good h =
      let i = book.instrument in
      let search = λ (c : ℕ).
        most_lots (affordable a f limit i.lot_size (child_of i))
          (min c (cash_units a limit i.lot_size) / i.lot_size) in
      let price = λ (lots : ℕ). residual_of i a f target limit lots in
      let (c, _, k) = >>=-eq-ok (ladder_capacity book limit) (λ c. search c >>= price) h in
      let (lots, _, l) = >>=-eq-ok (search c) price k in
      elim (Bool-cases (lots == 0)) [
        | inl no_lots ↦ All-of_ok (Priced a f i target limit) (rw no_lots at l) tt
        | inr some_lots ↦
            price_candidate-Priced a f i "FINAL_RESIDUAL" target limit (lots * i.lot_size) xs good
              (rw some_lots at l)
      ]

  residual_in_book-IsResidual :
      (book : OptionBook) (xs : List Opportunity)
      → residual_in_book final a f book ≡ ok xs
      → All (IsResidual final a f) xs
  unfolding residual_in_book
  residual_in_book-IsResidual book xs h =
      let i = book.instrument in
      let target = intrinsic i.option_type i.strike final.value in
      elim (Bool-cases (i.expiry == final.trading_date && has_ask (top_ask book))) [
        | inr passed ↦ All-of_ok (IsResidual final a f) (rw passed at h) tt
        | inl today ↦
            let same_day : i.expiry ≡ final.trading_date = ground arith in
            gather-All (IsResidual final a f) (IsResidualLimit i target)
              (λ (p : ℕ). residual_at book a f target p) (residual_limits i target book.asks) xs
              (λ p ys good e.
                All-map (Priced a f i target p) (IsResidual final a f)
                  (λ o priced. Priced-IsResidual final a f i p o same_day good.1 priced) ys
                  (residual_at-Priced book target p ys good.0 e))
              (residual_limits-All i target book.asks) (rw today at h)
      ]

-- With a final value the search refuses a value that is not valid, and what it finds is an option
-- that expires on the day of the value, at a permitted limit a tick or more below the exercise
-- value; the allocation permits its entry cash, and a sale at the exercise value leaves, all
-- charges paid, the positive edge.
pub find_final_opportunity-IsResidual :
    (final : FinalValue) (books : List OptionBook) (a : Allocation) (f : FeeSchedule)
    (o : Opportunity)
    → find_final_opportunity final books a f ≡ ok (some o)
    → (validate final ≡ ok tt) × IsResidual final a f o
unfolding find_final_opportunity
find_final_opportunity-IsResidual final books a f o h =
    let search = λ (b : OptionBook). residual_in_book final a f b in
    let (_, valid, k) =
      >>=-eq-ok (validate final) (λ _. gather search books >>= λ xs. choose xs) h in
    let (xs, e, l) = >>=-eq-ok (gather search books) (λ xs. choose xs) k in
    (
      valid,
      choose-All (IsResidual final a f) xs o
          (gather-All (IsResidual final a f) (λ (b : OptionBook). Unit {0}) search books xs
            (λ b ys _ e. residual_in_book-IsResidual final a f b ys e) (All-Unit books) e)
          l,
    )
