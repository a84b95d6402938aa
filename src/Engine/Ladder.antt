-- ===== src/Engine/Ladder.antt =====
-- What selling some units to the slices of a book brings, for the loop of `cycle` in
-- dhan_cas_bot/engine.py that adds the slices up.
use dhan_bot.Prelude.{
  ℕ, List, [], ◌∷◌, ◌+◌, ◌-◌, ◌*◌, ◌/◌, ◌≡◌, ◌≤◌, ◌<◌, ◌==◌, min, arith, refl, ap, ◌∙◌, false,
  floor-le, Bool-cases, inl, inr,
}

-- The units that a ladder of slices holds, and what selling some of them brings, best slice first.
abbrev pub depth : List (ℕ × ℕ) → ℕ
depth [] = 0
depth ((n, price) ∷ ladder) = n + depth ladder

abbrev pub sold : ℕ → List (ℕ × ℕ) → ℕ
sold units [] = 0
sold units ((n, price) ∷ ladder) = min units n * price + sold (units - n) ladder

sold-zero : (ladder : List (ℕ × ℕ)) → sold 0 ladder ≡ 0
sold-zero [] = refl
sold-zero ((n, price) ∷ ladder) =
    let no_units : min 0 n ≡ 0 = omega arith in
    let none_left : 0 - n ≡ 0 = omega arith in
    rw (no_units, none_left) (omega (arith, sold-zero ladder))

-- What the slices so far bring when some of the last one stays unsold.
paid_part :
    (supported n lots price cash : ℕ)
    → supported ≤ lots
    → lots ≤ supported + n
    → cash + n * price - (supported + n - lots) * price ≡ cash + min (lots - supported) n * price
paid_part supported n lots price cash low high =
    let d = lots - supported in
    let k = supported + n - lots in
    let whole : n ≡ d + k = omega (arith, low, high) in
    let least : min d n ≡ d = omega (arith, low, high) in
    let apart : n * price ≡ d * price + k * price = ap (λ z. z * price) whole ∙ distrib d k price in
    rw least (omega (arith, apart))
  where
    distrib : (a b p : ℕ) → (a + b) * p ≡ a * p + b * p
    distrib a b p = ground arith

-- Once some slices are taken: the units and the cash of the slices before a ladder.
pub record IsTaken (whole ladder : List (ℕ × ℕ)) (supported cash : ℕ) : Type 0 where
  pub units : supported + depth ladder ≡ depth whole
  pub paid : (u : ℕ) → supported ≤ u → sold u whole ≡ cash + sold (u - supported) ladder

pub next-IsTaken :
    (whole ladder : List (ℕ × ℕ)) (n price supported cash : ℕ)
    → IsTaken whole ((n, price) ∷ ladder) supported cash
    → IsTaken whole ladder (supported + n) (cash + n * price)
next-IsTaken whole ladder n price supported cash h = record {
  units = omega (arith, h.units);
  paid = λ u above.
      let all_sold : min (u - supported) n ≡ n = omega (arith, above) in
      let left : u - supported - n ≡ u - (supported + n) = omega arith in
      let before = h.paid u (omega (arith, above)) in
      let now = rw (all_sold, left) at before in omega (arith, now);
}

pub all_left : (ladder : List (ℕ × ℕ)) → IsTaken ladder ladder 0 0
all_left ladder = record {
  units = omega arith;
  paid = λ u above. let whole : u - 0 ≡ u = omega arith in rw whole (omega arith);
}

-- Whole lots of the slices so far that end in the last one bring what the loop says.
pub sold_part :
    (whole ladder : List (ℕ × ℕ)) (n price supported cash lots : ℕ)
    → IsTaken whole ((n, price) ∷ ladder) supported cash
    → supported ≤ lots
    → lots ≤ supported + n
    → cash + n * price - (supported + n - lots) * price ≡ sold lots whole
sold_part whole ladder n price supported cash lots h low high =
    let none_left : lots - supported - n ≡ 0 = omega (arith, high) in
    let before : sold lots whole
        ≡ cash + (min (lots - supported) n * price + sold (lots - supported - n) ladder) =
      h.paid lots low in
    let ends = rw none_left at before in
    let part = paid_part supported n lots price cash low high in
    omega (arith, ends, part, sold-zero ladder)

-- The whole lots of some units.
pub whole_lots :
    (units lot : ℕ)
    → (units / lot * lot ≤ units)
      × ((units / lot * lot == 0) ≡ false → units < units / lot * lot + lot)
whole_lots units lot = (floor-le units lot, λ some_lots. lot_left some_lots)
  where
    lot_left : (units / lot * lot == 0) ≡ false → units < units / lot * lot + lot
    lot_left h = elim (Bool-cases (lot == 0)) [
      | inl none_here ↦
          let zero_lot : lot ≡ 0 = ground (arith, none_here) in
          absurd (ground (arith, h, ap (λ z. units / lot * z) zero_lot))
      | inr some_here ↦ let positive : 0 < lot = ground (arith, some_here) in grind arith
    ]
