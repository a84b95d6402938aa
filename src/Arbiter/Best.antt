-- ===== src/Arbiter/Best.antt =====
-- What the choice of dhan_cas_bot/strategy_arbiter.py guarantees.
use dhan_bot.Arbiter.Selection.{
  select_executable, first_best, Scored, is_positive, Basis, is_unknown_rate, select_unknown,
  select_from, selected, one_sided, rate_of, experimental_execution_quality,
  measured_cash_per_minute, is_smoother, is_better,
}
use dhan_bot.Prelude.{
  [], ◌∷◌, refl, List, select, Bool, All, ◌≡◌, some, true, Bool-cases, false, ◌≤ℤ◌, inl, ◌≤◌, inr,
  ◌⊎◌, arith, ap, ℤ, ltb_ℤ, ◌||◌, subst, sym, leb_ℤ, ◌&&◌, ltb, if◌then◌else◌,
}

-- The first best has what every row has, and is at least as good as each by a measure that the
-- comparison follows.
module _ (better : Scored → Scored → Bool) (P : Scored → Type 0) (R : Scored → Scored → Type 0)
    (same_row : (x : Scored) → R x x) (trans : (x y z : Scored) → R x y → R y z → R x z)
    (wins : (x y : Scored) → better y x ≡ true → R x y)
    (keeps : (x y : Scored) → better y x ≡ false → R y x) where
  abbrev Kept : Scored → Scored → List Scored → Scored → Type 0
  Kept x y ys z =
      P (first_best better z ys)
      × R x (first_best better z ys)
      × All (λ (w : Scored). R w (first_best better z ys)) (y ∷ ys)

  first_best-All :
      (x : Scored) (xs : List Scored)
      → P x
      → All P xs
      → P (first_best better x xs)
        × R x (first_best better x xs)
        × All (λ (y : Scored). R y (first_best better x xs)) xs
  unfolding first_best
  first_best-All x [] h k = (h, same_row x, tt)
  first_best-All x (y ∷ ys) h k = elim (Bool-cases (better y x)) [
    | inl over ↦
        let (good, above, rest) = first_best-All y ys k.0 k.1 in
        let picked : y ≡ (if better y x then y else x) = rw over refl in
        let (a, b, c) =
          subst (Kept x y ys) picked
            (good, trans x y (first_best better y ys) (wins x y over) above, (above, rest)) in
        (a, b, c)
    | inr under ↦
        let (good, above, rest) = first_best-All x ys h k.1 in
        let picked : x ≡ (if better y x then y else x) = rw under refl in
        let (a, b, c) =
          subst (Kept x y ys) picked
            (good, above, (trans y x (first_best better x ys) (keeps x y under) above, rest)) in
        (a, b, c)
  ]

select-All : (p : Scored → Bool) (xs : List Scored) → All (λ x. p x ≡ true) (select p xs)
select-All p [] = tt
select-All p (x ∷ xs) = elim (Bool-cases (p x)) [
  | inl yes_x ↦ rw yes_x (yes_x, select-All p xs)
  | inr no_x ↦ rw no_x (select-All p xs)
]

-- A row is chosen by its rate: positive, and no positive rate is higher.
abbrev pub IsMeasured : List Scored → Scored → Type 0
IsMeasured rows r =
    (is_positive r.profit_per_minute ≡ true)
    × All (λ (s : Scored). rate_of s ≤ℤ rate_of r)
        (select (λ (s : Scored). is_positive s.profit_per_minute) rows)

-- A row is chosen without a rate: no row has a positive one, the rows without one are of its side, and
-- none of them has less friction.
abbrev pub IsExperimental : List Scored → Scored → Type 0
IsExperimental rows r =
    let unknown_rows = select (λ (s : Scored). is_unknown_rate s.profit_per_minute) rows in
    (select (λ (s : Scored). is_positive s.profit_per_minute) rows ≡ [])
    × (is_unknown_rate r.profit_per_minute ≡ true)
    × (one_sided unknown_rows ≡ true)
    × All (λ (s : Scored). r.friction_fraction ≤ s.friction_fraction) unknown_rows

from_unknown :
    (unknown_rows : List Scored) (r : Scored) (basis : Basis)
    → All (λ (s : Scored). is_unknown_rate s.profit_per_minute ≡ true) unknown_rows
    → select_unknown unknown_rows ≡ (some r, basis, selected)
    → (basis ≡ experimental_execution_quality)
      × (is_unknown_rate r.profit_per_minute ≡ true)
      × (one_sided unknown_rows ≡ true)
      × All (λ (s : Scored). r.friction_fraction ≤ s.friction_fraction) unknown_rows
from_unknown [] r basis h e = absurd (ground (arith, ap (λ p. p.0) e))
from_unknown (x ∷ xs) r basis h e = elim (Bool-cases (one_sided (x ∷ xs))) [
  | inr mixed ↦ absurd (let d = rw mixed at e in ground (arith, ap (λ p. p.0) d))
  | inl agreed ↦
      let d = rw agreed at e in
      let best = first_best is_smoother x xs in
      let same : best ≡ r = ground (arith, ap (λ p. p.0) d) in
      let (good, above, rest) =
        first_best-All is_smoother (λ (s : Scored). is_unknown_rate s.profit_per_minute ≡ true)
          (λ s t. t.friction_fraction ≤ s.friction_fraction) (λ s. omega arith)
          (λ s t u p q. omega (arith, p, q)) (λ s t p. ground (arith, p))
          (λ s t p. ground (arith, p)) x xs h.0 h.1 in
      subst
        (λ (b : Scored).
          (basis ≡ experimental_execution_quality)
          × (is_unknown_rate b.profit_per_minute ≡ true)
          × (one_sided (x ∷ xs) ≡ true)
          × All (λ (s : Scored). b.friction_fraction ≤ s.friction_fraction) (x ∷ xs))
        same (sym (ap (λ p. p.1) d), good, agreed, (above, rest))
]

from_rows :
    (positive unknown_rows : List Scored) (r : Scored) (basis : Basis)
    → All (λ (s : Scored). is_positive s.profit_per_minute ≡ true) positive
    → All (λ (s : Scored). is_unknown_rate s.profit_per_minute ≡ true) unknown_rows
    → select_from positive unknown_rows ≡ (some r, basis, selected)
    → ((basis ≡ measured_cash_per_minute)
        × (is_positive r.profit_per_minute ≡ true)
        × All (λ (s : Scored). rate_of s ≤ℤ rate_of r) positive)
      ⊎ ((positive ≡ [])
          × (basis ≡ experimental_execution_quality)
          × (is_unknown_rate r.profit_per_minute ≡ true)
          × (one_sided unknown_rows ≡ true)
          × All (λ (s : Scored). r.friction_fraction ≤ s.friction_fraction) unknown_rows)
from_rows [] unknown_rows r basis h k e =
    (let (how, free, agreed, least) = from_unknown unknown_rows r basis k e in
      inr (refl, how, free, agreed, least))
from_rows (x ∷ xs) unknown_rows r basis h k e =
    let best = first_best is_better x xs in
    let same : best ≡ r = ground (arith, ap (λ p. p.0) e) in
    let (good, above, rest) =
      first_best-All is_better (λ (s : Scored). is_positive s.profit_per_minute ≡ true)
        (λ s t. rate_of s ≤ℤ rate_of t) (λ s. le_refl (rate_of s))
        (λ s t u p q. le_trans (rate_of s) (rate_of t) (rate_of u) p q)
        (λ s t p. over (rate_of s) (rate_of t) (ltb t.friction_fraction s.friction_fraction) p)
        (λ s t p. under (rate_of s) (rate_of t) (ltb t.friction_fraction s.friction_fraction) p) x
        xs h.0 h.1 in
    inl (
      subst
        (λ (b : Scored).
          (basis ≡ measured_cash_per_minute)
          × (is_positive b.profit_per_minute ≡ true)
          × All (λ (s : Scored). rate_of s ≤ℤ rate_of b) (x ∷ xs))
        same (sym (ap (λ p. p.1) e), good, (above, rest)))
  where
    le_refl : (a : ℤ) → a ≤ℤ a
    le_refl a = ground arith

    le_trans : (a b c : ℤ) → a ≤ℤ b → b ≤ℤ c → a ≤ℤ c
    le_trans a b c p q = ground arith

    over : (a b : ℤ) (t : Bool) → (ltb_ℤ a b || leb_ℤ a b && leb_ℤ b a && t) ≡ true → a ≤ℤ b
    over a b t p = ground arith

    under : (a b : ℤ) (t : Bool) → (ltb_ℤ a b || leb_ℤ a b && leb_ℤ b a && t) ≡ false → b ≤ℤ a
    under a b t p = ground arith

-- A row is selected either by its measured rate, which is positive and the highest of the positive
-- ones, or, where no rate is positive, among the rows without a rate, which are then all of one side and none
-- of which has less friction.
pub select_executable-IsBest :
    (rows : List Scored) (r : Scored) (basis : Basis)
    → select_executable rows ≡ (some r, basis, selected)
    → ((basis ≡ measured_cash_per_minute) × IsMeasured rows r)
      ⊎ ((basis ≡ experimental_execution_quality) × IsExperimental rows r)
unfolding select_executable
select_executable-IsBest rows r basis h =
    elim (from_rows (select (λ (s : Scored). is_positive s.profit_per_minute) rows)
      (select (λ (s : Scored). is_unknown_rate s.profit_per_minute) rows) r basis
      (select-All (λ (s : Scored). is_positive s.profit_per_minute) rows)
      (select-All (λ (s : Scored). is_unknown_rate s.profit_per_minute) rows) h) [
        | inl (how, positive, best) ↦ inl (how, (positive, best))
        | inr (empty, how, free, agreed, least) ↦ inr (how, (empty, free, agreed, least))
      ]
