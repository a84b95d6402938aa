-- ===== src/Strategy/Search.antt =====
-- `find_opportunity` and `find_final_opportunity` of dhan_cas_bot/strategy.py. The `reject` callback
-- counts reasons for the telemetry and is left out.
use dhan_bot.Strategy.Boundary.{same_identity, Identity}
use dhan_bot.Strategy.Candidates.{
  Opportunity, choose, price_candidate, insert_price, cash_units, quantities_to_try, gather,
}
use dhan_bot.Strategy.Sizing.{intrinsic, permitted_limit, most_lots, affordable}
use dhan_bot.Risk.{Allocation, FeeSchedule, ladder_capacity}
use dhan_bot.Domain.{OptionBook, Instrument, OptionType, Level, ce, pe, top_ask, top_bid}
use dhan_bot.Prelude.{
  not, ℕ, Option, none, some, List, [], ◌∷◌, Result, ok, ◌>>=◌, Bool, if◌then◌else◌, true, ltb, ◌/◌,
  length, ◌*◌, all, ◌&&◌, min, ◌||◌, leb, ◌==◌, false, ◌+◌,
}

-- An observed index value and what identifies the observation.
abbrev pub Observed : Type 0
Observed = ℕ × Identity

-- `_same_direction`
abbrev pub same_direction : OptionType → ℕ → ℕ → Bool
same_direction ce current reference = ltb reference current
same_direction pe current reference = ltb current reference

-- The values of the last observations, from the newest back, that lie on the side of the move.
unfoldable pub contiguous : OptionType → ℕ → List Observed → List ℕ
contiguous d reference [] = []
contiguous d reference ((v, id) ∷ xs) =
    let rest = contiguous d reference xs in if same_direction d v reference then v ∷ rest else []

-- `len({identity for _, identity in observations}) < 2`
abbrev pub all_one : List Observed → Bool
all_one [] = true
all_one ((v, id) ∷ xs) = all (λ (x : Observed). same_identity x.1 id) xs

abbrev pub newest_first : List Observed → List Observed → List Observed
newest_first done [] = done
newest_first done (x ∷ xs) = newest_first (x ∷ done) xs

-- The direction of a confirmed move and its values, if the observations confirm one.
abbrev pub confirmed : OptionType → List ℕ → Option (OptionType × List ℕ)
confirmed d vs = if ltb (length vs) 2 then none else some (d, vs)

abbrev pub from_newest : ℕ → List Observed → Option (OptionType × List ℕ)
from_newest reference [] = none
from_newest reference ((current, id) ∷ []) = none
from_newest reference ((current, id) ∷ x ∷ xs) =
    let all_observed = (current, id) ∷ x ∷ xs in
    let d = if ltb reference current then ce else pe in
    if current == reference || all_one all_observed
    then none
    else confirmed d (contiguous d reference all_observed)

unfoldable pub direction_of : ℕ → List Observed → Option (OptionType × List ℕ)
direction_of reference observations = from_newest reference (newest_first [] observations)

-- `min(intrinsic(…) for value in contiguous)`
unfoldable pub worst_intrinsic : OptionType → ℕ → List ℕ → ℕ
worst_intrinsic d strike [] = 0
worst_intrinsic d strike (v ∷ []) = intrinsic d strike v
worst_intrinsic d strike (v ∷ w ∷ vs) =
    min (intrinsic d strike v) (worst_intrinsic d strike (w ∷ vs))

abbrev pub same_type : OptionType → OptionType → Bool
same_type ce ce = true
same_type pe pe = true
same_type _ _ = false

-- `sorted({level.price …})` of the asks below the target.
unfoldable pub lag_limits : Instrument → ℕ → List Level → List ℕ
lag_limits i target [] = []
lag_limits i target (l ∷ ls) =
    let rest = lag_limits i target ls in
    if ltb l.price target && ltb 0 l.quantity && permitted_limit i l.price
    then insert_price l.price rest
    else rest

abbrev pub child_of : Instrument → ℕ
child_of i = i.freeze_qty / i.lot_size * i.lot_size

-- One limit of a book.
unfoldable pub at_limit : OptionBook → Allocation → FeeSchedule → ℕ → ℕ → Result (List Opportunity)
at_limit book a f target limit = do
  let i = book.instrument
  let child = child_of i
  capacity ← ladder_capacity book limit
  let available = min (capacity / i.lot_size * i.lot_size) (cash_units a limit i.lot_size)
  lots ← most_lots (affordable a f limit i.lot_size child) (available / i.lot_size)
  gather (λ (q : ℕ). price_candidate i "CAS_LAG_V1" a f child target limit q)
      (quantities_to_try i.lot_size child (lots * i.lot_size))

-- A quote deep enough for a lot on both sides, and a lag of a tick or more.
abbrev pub has_lag : Instrument → ℕ → Option Level → Option Level → Bool
has_lag i target (some ask) (some bid) =
    not (ltb ask.quantity i.lot_size || ltb bid.quantity i.lot_size)
    && leb (ask.price + i.tick_size) target
has_lag i target _ _ = false

unfoldable pub in_book :
    OptionType → List ℕ → Allocation → FeeSchedule → OptionBook → Result (List Opportunity)
in_book d values a f book =
    let i = book.instrument in
    let target = worst_intrinsic d i.strike values in
    if same_type i.option_type d && has_lag i target (top_ask book) (top_bid book)
    then gather (λ (p : ℕ). at_limit book a f target p) (lag_limits i target book.asks)
    else ok []

abbrev pub search_confirmed :
    Option (OptionType × List ℕ)
    → Allocation
    → FeeSchedule
    → List OptionBook
    → Result (Option Opportunity)
search_confirmed none a f books = ok none
search_confirmed (some (d, values)) a f books =
    gather (λ (b : OptionBook). in_book d values a f b) books >>= λ xs. choose xs

unfoldable pub find_opportunity :
    ℕ → List Observed → List OptionBook → Allocation → FeeSchedule → Result (Option Opportunity)
find_opportunity reference observations books a f =
    search_confirmed (direction_of reference observations) a f books
