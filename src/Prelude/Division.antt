-- ===== src/Prelude/Division.antt =====
-- Quotients rounded up, and products, as the fee and lot arithmetic needs them.
use Prim.Native.Nat.{ℕ, ◌+◌, ◌-◌, ◌*◌, ◌/◌, ◌≤◌, ◌<◌, ◌%◌}
use native.Mathlib.Omega.{arith}
use mathlib.Core.Path.{◌≡◌}
use native.Mathlib.Nat.{mul-mod_left}
use native.Mathlib.Decide.{dec_lt}

abbrev pub ceil_div : ℕ → ℕ → ℕ
ceil_div a b = (a + (b - 1)) / b

pub mul_mono : (a b c d : ℕ) → a ≤ b → c ≤ d → a * c ≤ b * d
mul_mono a b c d h k = grind arith

pub div_mono : (a b d : ℕ) → a ≤ b → a / d ≤ b / d
div_mono a b d h = grind arith

pub le-ceil_div : (a d : ℕ) → 0 < d → a ≤ ceil_div a d * d
le-ceil_div a d h = grind arith

pub ceil_div-lt : (a d : ℕ) → 0 < d → ceil_div a d * d < a + d
ceil_div-lt a d h = grind arith

pub floor-le : (a d : ℕ) → a / d * d ≤ a
floor-le a d = grind arith

pub lt_of_mul_lt : (a b d : ℕ) → a * d < b * d → a < b
lt_of_mul_lt a b d h = elim (dec_lt a b) [
  | yes p ↦ p
  | no p ↦ absurd (omega (arith, h, mul_mono b a d d (omega arith) (omega arith)))
]

-- Rounding two amounts up apart adds at most one quantum over rounding their sum.
pub ceil_div-add : (a b d : ℕ) → 0 < d → ceil_div a d + ceil_div b d ≤ ceil_div (a + b) d + 1
ceil_div-add a b d h =
    let x = ceil_div a d in
    let y = ceil_div b d in
    let z = ceil_div (a + b) d in
    omega (
      arith,
      lt_of_mul_lt (x + y) (z + 2) d
          (omega (arith, ceil_div-lt a d h, ceil_div-lt b d h, le-ceil_div (a + b) d h)),
    )

pub mul_div_cancel : (u d : ℕ) → u % d ≡ 0 → u / d * d ≡ u
mul_div_cancel u d h = grind arith

pub mod-mul : (k d : ℕ) → (k * d) % d ≡ 0
mod-mul = mul-mod_left

-- A multiple of the quantum that is not below `a` is not below `a` rounded up either.
pub ceil_div-le : (a u d : ℕ) → 0 < d → u % d ≡ 0 → a ≤ u → ceil_div a d * d ≤ u
ceil_div-le a u d h m l =
    let k = u / d in
    let e : k * d ≡ u = mul_div_cancel u d m in
    let c = ceil_div a d in
    let near : c * d < (k + 1) * d = omega (arith, ceil_div-lt a d h, e) in
    omega (arith, e, mul_mono c k d d (omega (arith, lt_of_mul_lt c (k + 1) d near)) (omega arith))
