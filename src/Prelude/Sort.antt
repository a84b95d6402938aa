-- ===== src/Prelude/Sort.antt =====
-- `sorted(xs, key=…)` of Python: stable, by an order that is a Boolean test; and the ends of a list.
use Prim.Native.Nat.{ℕ, zero, suc, ◌+◌, ◌-◌}
use mathlib.Core.Path.{◌≡◌, refl}
use mathlib.Core.Bool.{Bool, true, false}
use mathlib.Core.Logic.{inl, inr}
use mathlib.Core.List.{List, [], ◌∷◌}
use native.Mathlib.Omega.{arith}
use dhan_bot.Prelude.Tests.{if◌then◌else◌, Bool-cases}
use dhan_bot.Prelude.Lists.{length, drop, sum_of, All}

module _ {ℓ} {A : Type ℓ} where
  -- An element goes in front of those that it does not come after.
  unfoldable pub insert_by : (A → A → Bool) → A → List A → List A
  insert_by leq x [] = x ∷ []
  insert_by leq x (y ∷ ys) =
      let rest = insert_by leq x ys in if leq x y then x ∷ y ∷ ys else y ∷ rest

  unfoldable pub sort_by : (A → A → Bool) → List A → List A
  unfolding insert_by
  sort_by leq [] = []
  sort_by leq (x ∷ xs) = insert_by leq x (sort_by leq xs)

  -- `xs[-n:]` for a positive `n`
  abbrev pub last_n : ℕ → List A → List A
  last_n n xs = drop (length xs - n) xs

  pub length-drop : (n : ℕ) (xs : List A) → length (drop n xs) ≡ length xs - n
  length-drop zero xs = omega arith
  length-drop (suc n) [] = omega arith
  length-drop (suc n) (x ∷ xs) = omega (arith, length-drop n xs)

  pub All-drop {κ} : (P : A → Type κ) (n : ℕ) (xs : List A) → All P xs → All P (drop n xs)
  All-drop P zero xs h = h
  All-drop P (suc n) [] h = tt
  All-drop P (suc n) (x ∷ xs) h = All-drop P n xs h.1

  module _ (leq : A → A → Bool) where
    sum_of-insert_by :
        (f : A → ℕ) (x : A) (xs : List A) → sum_of f (insert_by leq x xs) ≡ f x + sum_of f xs
    unfolding insert_by
    sum_of-insert_by f x [] = refl
    sum_of-insert_by f x (y ∷ ys) = elim (Bool-cases (leq x y)) [
      | inl first ↦ rw first
      | inr later ↦ rw later (omega (arith, sum_of-insert_by f x ys))
    ]

    pub sum_of-sort_by : (f : A → ℕ) (xs : List A) → sum_of f (sort_by leq xs) ≡ sum_of f xs
    unfolding sort_by
    sum_of-sort_by f [] = refl
    sum_of-sort_by f (x ∷ xs) =
        omega (arith, sum_of-insert_by f x (sort_by leq xs), sum_of-sort_by f xs)

    pub All-insert_by {κ} :
        (P : A → Type κ) (x : A) (xs : List A) → P x → All P xs → All P (insert_by leq x xs)
    unfolding insert_by
    All-insert_by P x [] h k = (h, tt)
    All-insert_by P x (y ∷ ys) h k = elim (Bool-cases (leq x y)) [
      | inl first ↦ rw first (h, k)
      | inr later ↦ rw later (k.0, All-insert_by P x ys h k.1)
    ]

    pub All-sort_by {κ} : (P : A → Type κ) (xs : List A) → All P xs → All P (sort_by leq xs)
    unfolding sort_by
    All-sort_by P [] h = tt
    All-sort_by P (x ∷ xs) h = All-insert_by P x (sort_by leq xs) h.0 (All-sort_by P xs h.1)

    length-insert_by : (x : A) (xs : List A) → length (insert_by leq x xs) ≡ suc (length xs)
    unfolding insert_by
    length-insert_by x [] = refl
    length-insert_by x (y ∷ ys) = elim (Bool-cases (leq x y)) [
      | inl first ↦ rw first
      | inr later ↦ rw later (omega (arith, length-insert_by x ys))
    ]

    pub length-sort_by : (xs : List A) → length (sort_by leq xs) ≡ length xs
    unfolding sort_by
    length-sort_by [] = refl
    length-sort_by (x ∷ xs) = omega (arith, length-insert_by x (sort_by leq xs), length-sort_by xs)

    -- Each element comes before, or with, every later one.
    abbrev pub Ordered : List A → Type ℓ
    Ordered [] = Unit
    Ordered (x ∷ xs) = All (λ y. leq x y ≡ true) xs × Ordered xs

    module _ (trans : (x y z : A) → leq x y ≡ true → leq y z ≡ true → leq x z ≡ true)
        (total : (x y : A) → leq x y ≡ false → leq y x ≡ true) where
      below_more :
          (x y : A) (ys : List A)
          → leq x y ≡ true
          → All (λ z. leq y z ≡ true) ys
          → All (λ z. leq x z ≡ true) ys
      below_more x y [] e h = tt
      below_more x y (z ∷ zs) e h = (trans x y z e h.0, below_more x y zs e h.1)

      pub insert_by-Ordered : (x : A) (xs : List A) → Ordered xs → Ordered (insert_by leq x xs)
      unfolding insert_by
      insert_by-Ordered x [] h = (tt, tt)
      insert_by-Ordered x (y ∷ ys) h = elim (Bool-cases (leq x y)) [
        | inl first ↦ rw first ((first, below_more x y ys first h.0), h)
        | inr later ↦ rw later (
          All-insert_by (λ z. leq y z ≡ true) x ys (total x y later) h.0,
          insert_by-Ordered x ys h.1,
        )
      ]

      pub sort_by-Ordered : (xs : List A) → Ordered (sort_by leq xs)
      unfolding sort_by
      sort_by-Ordered [] = tt
      sort_by-Ordered (x ∷ xs) = insert_by-Ordered x (sort_by leq xs) (sort_by-Ordered xs)
