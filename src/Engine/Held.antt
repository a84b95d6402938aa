-- ===== src/Engine/Held.antt =====
-- When a position of dhan_cas_bot/engine.py is held, and when it is sold against a final value.
use dhan_bot.Engine.Signals.{is_some}
use dhan_bot.Strategy.{child_of, children_of}
use dhan_bot.Domain.{Instrument, OptionBook}
use dhan_bot.Engine.Ladder.{depth, sold, IsTaken, all_left, next-IsTaken, sold_part, whole_lots}
use dhan_bot.Engine.Leave.{
  better_units, final_move, best_units, net_value, Move, await_settlement, ladder_of, sell_units,
  move_for,
}
use dhan_bot.Strategy.{intrinsic}
use dhan_bot.Prelude.{
  [], none, ◌∷◌, refl, ℕ, List, Option, ◌≡◌, ◌*◌, ◌⊎◌, ok, ℤ, arith, String, leb_ℤ, subst, true,
  ◌+◌, ◌≤ℤ◌, ◌/◌, Bool-cases, pos, ◌-◌, ◌<ℤ◌, >>=-eq-ok, ◌==◌, inl, inr, ◌>>=◌, ◌≢◌, if◌then◌else◌,
  min, ◌<◌, not, str_eq, false, some, Bool, ◌∙◌, eq_iff, ltb_ℤ, ◌&&◌, All, ◌≤◌,
}

-- Selling these whole lots to the slices, which hold them, is no worse than their exercise.
abbrev pub IsNoWorse : Instrument → ℕ → List (ℕ × ℕ) → ℕ → Type 0
IsNoWorse i target ladder units =
    (k : ℕ) × (units ≡ k * i.lot_size)
    × (units ≤ depth ladder)
    × (sale same : ℤ) × (net_value (sold units ladder) (children_of units (child_of i)) ≡ ok sale)
    × (net_value (target * units) (children_of units (child_of i)) ≡ ok same)
    × (same ≤ℤ sale)

-- No units yet, or units that are worth selling.
abbrev IsBest : Instrument → ℕ → List (ℕ × ℕ) → ℕ → Type 0
IsBest i target ladder units = (units ≡ 0) ⊎ IsNoWorse i target ladder units

better_units-IsBest :
    (i : Instrument) (target : ℕ) (ladder : List (ℕ × ℕ)) (k finite units more : ℕ)
    → IsBest i target ladder units
    → k * i.lot_size ≤ depth ladder
    → ((k * i.lot_size == 0) ≡ false → finite ≡ sold (k * i.lot_size) ladder)
    → better_units (child_of i) target (k * i.lot_size) finite units ≡ ok more
    → IsBest i target ladder more
unfolding better_units
better_units-IsBest i target ladder k finite units more good held paid h =
    let lots = k * i.lot_size in
    let children = children_of lots (child_of i) in
    elim (Bool-cases (lots == 0)) [
      | inl no_lots ↦
          let e = rw no_lots at h in
          let same : units ≡ more = ground (arith, e) in
          subst (λ u. IsBest i target ladder u) same good
      | inr some_lots ↦
          let e = rw some_lots at h in
          let (sale, e1, h1) =
            >>=-eq-ok (net_value finite children)
              (λ sale. net_value (target * lots) children >>= λ same.
                ok (if leb_ℤ same sale then lots else units))
              e in
          let (same, e2, h2) =
            >>=-eq-ok (net_value (target * lots) children)
              (λ same. ok (if leb_ℤ same sale then lots else units)) h1 in
          elim (Bool-cases (leb_ℤ same sale)) [
            | inl wins ↦
                let d = rw wins at h2 in
                let found : lots ≡ more = ground (arith, d) in
                subst (λ u. IsBest i target ladder u) found
                  (inr (
                    k,
                    refl,
                    held,
                    sale,
                    same,
                    subst (λ c. net_value c children ≡ ok sale) (paid some_lots) e1,
                    e2,
                    leb-le same sale wins,
                  ))
            | inr loses ↦
                let d = rw loses at h2 in
                let kept : units ≡ more = ground (arith, d) in
                subst (λ u. IsBest i target ladder u) kept good
          ]
    ]
  where
    leb-le : (a b : ℤ) → leb_ℤ a b ≡ true → a ≤ℤ b
    leb-le a b h = ground arith

best_units-IsBest :
    (i : Instrument) (target : ℕ) (whole ladder : List (ℕ × ℕ)) (supported cash units found : ℕ)
    → All (λ (s : ℕ × ℕ). i.lot_size ≤ s.0) ladder
    → IsTaken whole ladder supported cash
    → IsBest i target whole units
    → best_units i target ladder supported cash units ≡ ok found
    → IsBest i target whole found
unfolding best_units
best_units-IsBest i target whole [] supported cash units found big taken good h =
    let same : units ≡ found = ground (arith, h) in subst (λ u. IsBest i target whole u) same good
best_units-IsBest i target whole ((n, price) ∷ ladder) supported cash units found big taken good h =
    let supply = supported + n in
    let total = cash + n * price in
    let lots = supply / i.lot_size * i.lot_size in
    let finite = total - (supply - lots) * price in
    let (more, e, k) =
      >>=-eq-ok (better_units (child_of i) target lots finite units)
        (λ more. best_units i target ladder supply total more) h in
    let (low, high) = whole_lots supply i.lot_size in
    best_units-IsBest i target whole ladder supply total more found big.1
      (next-IsTaken whole ladder n price supported cash taken)
      (better_units-IsBest i target whole (supply / i.lot_size) finite units more good
        (omega (arith, low, taken.units))
        (λ some_lots.
          sold_part whole ladder n price supported cash lots taken
            (omega (arith, high some_lots, big.0)) low)
        e)
      k

waits_when :
    (credit c : ℤ) (units quantity : ℕ) (leaving booked : Bool)
    → move_for credit units quantity leaving booked ≡ await_settlement c
    → (credit ≡ c) × (pos 0 <ℤ credit) × (units ≡ 0) × (leaving ≡ false)
waits_when credit c units quantity leaving booked h =
    elim (Bool-cases (ltb_ℤ (pos 0) credit && units == 0 && not leaving)) [
      | inl waits ↦
          let d = rw waits at h in
          (ground (arith, d), ground (arith, waits), ground (arith, waits), ground (arith, waits))
      | inr stays ↦ absurd (let d = rw stays at h in ground (arith, d))
    ]

sells_when :
    (credit : ℤ) (units quantity n : ℕ) (leaving booked : Bool)
    → move_for credit units quantity leaving booked ≡ sell_units n
    → (n ≡ min units quantity) × (0 < units) × (leaving ≡ false) × (booked ≡ true)
sells_when credit units quantity n leaving booked h =
    elim (Bool-cases (ltb_ℤ (pos 0) credit && units == 0 && not leaving)) [
      | inl waits ↦ absurd (let d = rw waits at h in ground (arith, d))
      | inr stays ↦
          let d = rw stays at h in
          elim (Bool-cases (booked && not (units == 0) && not leaving)) [
            | inl sells ↦
                let e = rw sells at d in
                (
                  ground (arith, e),
                  ground (arith, sells),
                  ground (arith, sells),
                  ground (arith, sells),
                )
            | inr goes ↦ absurd (let e = rw goes at d in ground (arith, e))
          ]
    ]

not_leaving : (t : String) → not (str_eq t "") ≡ false → t ≡ ""
not_leaving t h = ground (arith, eq_iff t "")

booked-some : (o : Option OptionBook) → is_some o ≡ true → o ≢ none
booked-some none h e = ground (arith, h)
booked-some (some b) h e = ground (arith, e)

worth_selling :
    (i : Instrument) (target : ℕ) (ladder : List (ℕ × ℕ)) (units : ℕ)
    → IsBest i target ladder units
    → 0 < units
    → IsNoWorse i target ladder units
worth_selling i target ladder units (inl no_units) h = absurd (omega (arith, no_units, h))
worth_selling i target ladder units (inr good) h = good

-- With a confirmed final value and bids of which each takes at least a lot, a position that is not
-- leaving waits only for a positive credit, where the loop over the bids finds no lots that are
-- worth selling. It sells only whole lots, cut to its quantity, that the bids can take, and whose sale to the bids, each at its
-- price and the best first, leaves, all charges paid, no less than their exercise does.
pub final_move-IsNoWorse :
    (i : Instrument) (final : ℕ) (book : Option OptionBook) (quantity : ℕ) (exit_reason : String)
    (move : Move)
    → All (λ (s : ℕ × ℕ). i.lot_size ≤ s.0) (ladder_of book quantity)
    → final_move i final book quantity exit_reason ≡ ok move
    → let target = intrinsic i.option_type i.strike final in
      ((credit : ℤ)
        → move ≡ await_settlement credit
        → (pos 0 <ℤ credit)
          × (exit_reason ≡ "")
          × (net_value (target * quantity) (children_of quantity (child_of i)) ≡ ok credit)
          × (best_units i target (ladder_of book quantity) 0 0 0 ≡ ok 0))
      × ((n : ℕ)
          → move ≡ sell_units n
          → (exit_reason ≡ "")
            × (book ≢ none)
            × (units : ℕ) × (n ≡ min units quantity)
            × (0 < units)
            × IsNoWorse i target (ladder_of book quantity) units)
unfolding final_move
final_move-IsNoWorse i final book quantity exit_reason move big h =
    let target = intrinsic i.option_type i.strike final in
    let children = children_of quantity (child_of i) in
    let (units, e1, h1) =
      >>=-eq-ok (best_units i target (ladder_of book quantity) 0 0 0)
        (λ units. net_value (target * quantity) children >>= λ credit.
          ok (move_for credit units quantity (not (str_eq exit_reason "")) (is_some book)))
        h in
    let (credit, e2, h2) =
      >>=-eq-ok (net_value (target * quantity) children)
        (λ credit. ok (move_for credit units quantity (not (str_eq exit_reason "")) (is_some book)))
        h1 in
    let made : move_for credit units quantity (not (str_eq exit_reason "")) (is_some book) ≡ move =
      ground (arith, h2) in
    let ladder = ladder_of book quantity in
    let best =
      best_units-IsBest i target ladder ladder 0 0 0 units big (all_left ladder) (inl refl) e1 in
    (
      λ c e.
          let (same, positive, no_units, staying) =
            waits_when credit c units quantity (not (str_eq exit_reason "")) (is_some book)
              (made ∙ e) in
          (
            subst (λ z. pos 0 <ℤ z) same positive,
            not_leaving exit_reason staying,
            subst (λ z. net_value (target * quantity) children ≡ ok z) same e2,
            subst (λ u. best_units i target (ladder_of book quantity) 0 0 0 ≡ ok u) no_units e1,
          ),
      λ n e.
          let (same, positive, staying, booked) =
            sells_when credit units quantity n (not (str_eq exit_reason "")) (is_some book)
              (made ∙ e) in
          (
            not_leaving exit_reason staying,
            booked-some book booked,
            units,
            same,
            positive,
            worth_selling i target (ladder_of book quantity) units best positive,
          ),
    )
