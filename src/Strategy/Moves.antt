-- ===== src/Strategy/Moves.antt =====
-- What a confirmed move of dhan_cas_bot/strategy.py says of the observations.
use dhan_bot.Strategy.Boundary.{Identity, same_identity}
use dhan_bot.Strategy.Search.{
  Observed, contiguous, same_direction, confirmed, from_newest, newest_first, all_one,
}
use dhan_bot.Domain.{ce, pe, OptionType}
use dhan_bot.Prelude.{
  ◌≡◌, ◌<◌, ◌≤◌, All, List, [], ◌∷◌, some, true, Bool-cases, inl, inr, arith, ℕ, refl, subst, ltb,
  ◌==◌, sym, length, ◌||◌, if◌then◌else◌, Bool, ◌⊎◌, map, ◌++◌, false, ap, all, ◌∙◌,
}

-- On the side of the reference that an option gains on.
abbrev pub Beyond : OptionType → ℕ → ℕ → Type 0
Beyond ce reference v = reference < v
Beyond pe reference v = v < reference

same_direction-Beyond :
    (d : OptionType) (reference v : ℕ) → same_direction d v reference ≡ true → Beyond d reference v
same_direction-Beyond ce reference v h = ground arith
same_direction-Beyond pe reference v h = ground arith

contiguous-All :
    (d : OptionType) (reference : ℕ) (xs : List Observed)
    → All (Beyond d reference) (contiguous d reference xs)
unfolding contiguous
contiguous-All d reference [] = tt
contiguous-All d reference ((v, id) ∷ xs) = elim (Bool-cases (same_direction d v reference)) [
  | inl on ↦ rw on (same_direction-Beyond d reference v on, contiguous-All d reference xs)
  | inr off ↦ rw off tt
]

abbrev pub IsSeen : Observed → List Observed → Type 0
IsSeen x [] = ⊥
IsSeen x (y ∷ ys) = (x ≡ y) ⊎ IsSeen x ys

-- A move of observations, the newest first: the values of two or more of the newest lie on one side
-- of the reference, and not all observations are the same.
pub record IsMoveOf (reference : ℕ) (d : OptionType) (values : List ℕ) (seen : List Observed)
    : Type 0 where
  pub newest : List Observed
  pub earlier : List Observed
  pub observed : seen ≡ newest ++ earlier
  pub values_of : values ≡ map (λ (x : Observed). x.0) newest
  pub many : 2 ≤ length newest
  pub beyond : All (Beyond d reference) values
  pub first : Observed
  pub second : Observed
  pub both : IsSeen first seen × IsSeen second seen
  pub distinct : same_identity first.1 second.1 ≡ false

abbrev pub IsMove : ℕ → OptionType → List ℕ → List Observed → Type 0
IsMove reference d values observations = IsMoveOf reference d values (newest_first [] observations)

contiguous-run :
    (d : OptionType) (reference : ℕ) (xs : List Observed)
    → (newest earlier : List Observed) × (xs ≡ newest ++ earlier)
      × (contiguous d reference xs ≡ map (λ (x : Observed). x.0) newest)
unfolding contiguous
contiguous-run d reference [] = ([], [], refl, refl)
contiguous-run d reference ((v, id) ∷ xs) = elim (Bool-cases (same_direction d v reference)) [
  | inl on ↦
      let (newest, earlier, whole, values) = contiguous-run d reference xs in
      (
        (v, id) ∷ newest,
        earlier,
        ap (λ (ys : List Observed). (v, id) ∷ ys) whole,
        rw on (ap (λ (vs : List ℕ). v ∷ vs) values),
      )
  | inr off ↦ ([], (v, id) ∷ xs, refl, rw off refl)
]

length-map_values : (xs : List Observed) → length (map (λ (x : Observed). x.0) xs) ≡ length xs
length-map_values [] = refl
length-map_values (x ∷ xs) = omega (arith, length-map_values xs)

-- Where not all are one, there is another.
other_than :
    (id : Identity) (xs : List Observed)
    → all (λ (x : Observed). same_identity x.1 id) xs ≡ false
    → (x : Observed) × IsSeen x xs × (same_identity x.1 id ≡ false)
other_than id [] h = absurd (ground (arith, h))
other_than id (x ∷ xs) h = elim (Bool-cases (same_identity x.1 id)) [
  | inr other ↦ (x, inl refl, other)
  | inl same ↦
      let (y, found, other) = other_than id xs (ground (arith, h, same)) in (y, inr found, other)
]

pub from_newest-IsMove :
    (reference : ℕ) (xs : List Observed) (d : OptionType) (values : List ℕ)
    → from_newest reference xs ≡ some (d, values)
    → IsMoveOf reference d values xs
from_newest-IsMove reference [] d values h = absurd (ground (arith, h))
from_newest-IsMove reference ((c, id) ∷ []) d values h = absurd (ground (arith, h))
from_newest-IsMove reference ((c, id) ∷ x ∷ xs) d values h =
    let seen = (c, id) ∷ x ∷ xs in
    let e : OptionType = if ltb reference c then ce else pe in
    elim (Bool-cases (c == reference || all_one seen)) [
      | inl no_move ↦ absurd (let k = rw no_move at h in ground (arith, k))
      | inr moved ↦
          let (same_d, same_values, many) =
            confirmed-values e d (contiguous e reference seen) values (rw moved at h) in
          let (newest, earlier, whole, run) = contiguous-run e reference seen in
          let (other, found, apart) =
            other_than id (x ∷ xs) (only_second (c == reference) (all_one seen) moved) in
          record {
            newest = newest;
            earlier = earlier;
            observed = whole;
            values_of = sym same_values ∙ run;
            many =
                subst (λ (n : ℕ). 2 ≤ n)
                  (ap (λ (vs : List ℕ). length vs) run ∙ length-map_values newest) many;
            beyond =
                subst (λ (t : OptionType). All (Beyond t reference) values) same_d
                  (subst (λ (u : List ℕ). All (Beyond e reference) u) same_values
                    (contiguous-All e reference seen));
            first = other;
            second = (c, id);
            both = (inr found, inl refl);
            distinct = apart;
          }
    ]
  where
    only_second : (a b : Bool) → (a || b) ≡ false → b ≡ false
    only_second a b h = ground arith

    confirmed-values :
        (e d : OptionType) (vs values : List ℕ)
        → confirmed e vs ≡ some (d, values)
        → (e ≡ d) × (vs ≡ values) × (2 ≤ length vs)
    confirmed-values e d vs values h = elim (Bool-cases (ltb (length vs) 2)) [
      | inl short ↦ absurd (let k = rw short at h in ground (arith, k))
      | inr long ↦ let k = rw long at h in (ground (arith, k), ground (arith, k), ground arith)
    ]
