-- ===== src/Strategy/Sound.antt =====
-- Whatever the auction search of dhan_cas_bot/strategy.py returns is worth buying and can be paid.

use dhan_bot.Strategy.Chosen.{choose-All}
use dhan_bot.Strategy.Worth.{
  Priced, IsWorth, insert_price-All, All-of_ok, gather-All, price_candidate-Priced, All-map,
  All-Unit,
}
use dhan_bot.Strategy.Search.{
  child_of, worst_intrinsic, lag_limits, same_type, at_limit, in_book, has_lag, find_opportunity,
  Observed, direction_of, search_confirmed, newest_first,
}
use dhan_bot.Strategy.Moves.{IsMove, IsMoveOf, from_newest-IsMove}
use dhan_bot.Strategy.Sizing.{permitted_limit, intrinsic, most_lots, affordable}
use dhan_bot.Domain.{ce, pe, Instrument, OptionType, Level, OptionBook, top_ask, top_bid}
use dhan_bot.Strategy.Candidates.{
  Opportunity, price_candidate, gather, quantities_to_try, cash_units, choose,
}
use dhan_bot.Risk.{Allocation, FeeSchedule, ladder_capacity}
use dhan_bot.Prelude.{
  ◌>>=◌, ◌≡◌, ◌<◌, ◌≤◌, ◌*◌, All, List, [], ◌∷◌, ok, none, some, true, Bool-cases, inl, inr,
  >>=-eq-ok, arith, ℕ, refl, subst, ltb, ◌&&◌, sym, min, ◌/◌, Option,
}

-- Every limit that is tried is permitted and leaves less than the target.
abbrev IsLagLimit : Instrument → ℕ → ℕ → Type 0
IsLagLimit i target p = (permitted_limit i p ≡ true) × (p < target)

lag_limits-All :
    (i : Instrument) (target : ℕ) (ls : List Level)
    → All (IsLagLimit i target) (lag_limits i target ls)
unfolding lag_limits
lag_limits-All i target [] = tt
lag_limits-All i target (l ∷ ls) =
    let rest = lag_limits-All i target ls in
    elim (Bool-cases (ltb l.price target && ltb 0 l.quantity && permitted_limit i l.price)) [
      | inl fits ↦ rw fits (
          insert_price-All (IsLagLimit i target) l.price (lag_limits i target ls)
            (ground arith, ground arith) rest)
      | inr skipped ↦ rw skipped rest
    ]

-- The target is at most the intrinsic value at each of the values.
worst_intrinsic-le :
    (d : OptionType) (strike : ℕ) (vs : List ℕ)
    → All (λ (v : ℕ). worst_intrinsic d strike vs ≤ intrinsic d strike v) vs
unfolding worst_intrinsic
worst_intrinsic-le d strike [] = tt
worst_intrinsic-le d strike (v ∷ []) = (omega arith, tt)
worst_intrinsic-le d strike (v ∷ w ∷ vs) = (
  omega arith,
  All-weaken (worst_intrinsic d strike (w ∷ vs)) _ (omega arith) (w ∷ vs)
      (worst_intrinsic-le d strike (w ∷ vs)),
)
  where
    All-weaken :
        (m n : ℕ)
        → n ≤ m
        → (us : List ℕ) → All (λ (u : ℕ). m ≤ intrinsic d strike u) us
        → All (λ (u : ℕ). n ≤ intrinsic d strike u) us
    All-weaken m n le [] h = tt
    All-weaken m n le (u ∷ us) h = (omega (arith, h.0), All-weaken m n le us h.1)

-- An opportunity of the auction: in the direction of the move, below the intrinsic value at each
-- value of the move, and worth its cost.
abbrev pub IsLag : OptionType → List ℕ → Allocation → FeeSchedule → Opportunity → Type 0
IsLag d values a f o =
    let target = worst_intrinsic d o.instrument.strike values in
    (o.instrument.option_type ≡ d)
    × (o.limit_price < target)
    × IsWorth a f target o
    × All (λ (v : ℕ). target ≤ intrinsic d o.instrument.strike v) values

same_type-eq : (a b : OptionType) → same_type a b ≡ true → a ≡ b
same_type-eq ce ce h = refl
same_type-eq pe pe h = refl
same_type-eq ce pe h = cc
same_type-eq pe ce h = cc

Priced-IsLag :
    (a : Allocation) (f : FeeSchedule) (d : OptionType) (values : List ℕ) (i : Instrument) (p : ℕ)
    (o : Opportunity)
    → i.option_type ≡ d
    → p < worst_intrinsic d i.strike values
    → Priced a f i (worst_intrinsic d i.strike values) p o
    → IsLag d values a f o
Priced-IsLag a f d values i p o kind below (worth, same, limit) =
    subst
      (λ (j : Instrument).
        (j.option_type ≡ d)
        × (o.limit_price < worst_intrinsic d j.strike values)
        × IsWorth a f (worst_intrinsic d j.strike values) o
        × All (λ (v : ℕ). worst_intrinsic d j.strike values ≤ intrinsic d j.strike v) values)
      (sym same) (kind, rw limit below, worth, worst_intrinsic-le d i.strike values)

module _ (a : Allocation) (f : FeeSchedule) where
  at_limit-IsWorth :
      (book : OptionBook) (target limit : ℕ) (xs : List Opportunity)
      → IsLagLimit book.instrument target limit
      → at_limit book a f target limit ≡ ok xs
      → All (λ (o : Opportunity). Priced a f book.instrument target limit o) xs
  unfolding at_limit
  at_limit-IsWorth book target limit xs good h =
      let i = book.instrument in
      let child = child_of i in
      let priced = λ (q : ℕ). price_candidate i "CAS_LAG_V1" a f child target limit q in
      let try_lots =
        λ (lots : ℕ). gather priced (quantities_to_try i.lot_size child (lots * i.lot_size)) in
      let search = λ (c : ℕ).
        most_lots (affordable a f limit i.lot_size child)
          (min (c / i.lot_size * i.lot_size) (cash_units a limit i.lot_size) / i.lot_size) in
      let (c, _, k) = >>=-eq-ok (ladder_capacity book limit) (λ c. search c >>= try_lots) h in
      let (lots, _, l) = >>=-eq-ok (search c) try_lots k in
      gather-All (Priced a f i target limit) (λ (q : ℕ). Unit {0}) priced
        (quantities_to_try i.lot_size child (lots * i.lot_size)) xs
        (λ q ys _ e. price_candidate-Priced a f i "CAS_LAG_V1" target limit q ys good.0 e)
        (All-Unit (quantities_to_try i.lot_size child (lots * i.lot_size))) l

  in_book-IsLag :
      (d : OptionType) (values : List ℕ) (book : OptionBook) (xs : List Opportunity)
      → in_book d values a f book ≡ ok xs
      → All (IsLag d values a f) xs
  unfolding in_book
  in_book-IsLag d values book xs h =
      let i = book.instrument in
      let target = worst_intrinsic d i.strike values in
      elim (Bool-cases
        (same_type i.option_type d && has_lag i target (top_ask book) (top_bid book))) [
          | inr passed ↦ All-of_ok (IsLag d values a f) (rw passed at h) tt
          | inl lags ↦
              gather-All (IsLag d values a f) (IsLagLimit i target)
                (λ (p : ℕ). at_limit book a f target p) (lag_limits i target book.asks) xs
                (λ p ys good e.
                  All-map (Priced a f i target p) (IsLag d values a f)
                    (λ o priced.
                      Priced-IsLag a f d values i p o (same_type-eq i.option_type d (ground arith))
                        good.1 priced)
                    ys (at_limit-IsWorth book target p ys good e))
                (lag_limits-All i target book.asks) (rw lags at h)
        ]

search_confirmed-IsLag :
    (a : Allocation) (f : FeeSchedule) (reference : ℕ) (seen : List Observed)
    (books : List OptionBook) (o : Opportunity) (found : Option (OptionType × List ℕ))
    → ((d : OptionType) (values : List ℕ)
        → found ≡ some (d, values)
        → IsMoveOf reference d values seen)
    → search_confirmed found a f books ≡ ok (some o)
    → (d : OptionType) × (values : List ℕ) × IsMoveOf reference d values seen × IsLag d values a f o
search_confirmed-IsLag a f reference seen books o none moves h = absurd (ground (arith, h))
search_confirmed-IsLag a f reference seen books o (some (d, values)) moves h =
    let search = λ (b : OptionBook). in_book d values a f b in
    let (xs, e, k) = >>=-eq-ok (gather search books) (λ xs. choose xs) h in
    (
      d,
      values,
      moves d values refl,
      choose-All (IsLag d values a f) xs o
          (gather-All (IsLag d values a f) (λ (b : OptionBook). Unit {0}) search books xs
            (λ b ys _ e. in_book-IsLag a f d values b ys e) (All-Unit books) e)
          k,
    )

-- Every opportunity that the auction search finds rests on a move: the values of two or more of the
-- newest observations, without a gap, all on one side of the reference, where two of the observations
-- differ in their identity. It is an option in the direction of the move with a permitted limit
-- below its intrinsic value at each of these values; the allocation permits its entry cash, which
-- is the worst case of the purchase in its child orders, and selling it at the lowest of these intrinsic
-- values leaves, all charges paid, the positive edge.
pub find_opportunity-IsLag :
    (reference : ℕ) (observations : List Observed) (books : List OptionBook) (a : Allocation)
    (f : FeeSchedule) (o : Opportunity)
    → find_opportunity reference observations books a f ≡ ok (some o)
    → (d : OptionType) × (values : List ℕ) × IsMove reference d values observations
      × IsLag d values a f o
unfolding find_opportunity direction_of
find_opportunity-IsLag reference observations books a f o h =
    search_confirmed-IsLag a f reference (newest_first [] observations) books o
      (direction_of reference observations)
      (λ d values e. from_newest-IsMove reference (newest_first [] observations) d values e) h
