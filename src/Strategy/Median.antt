-- ===== src/Strategy/Median.antt =====
-- What the reference of dhan_cas_bot/strategy.py is: the median of five distinct eligible observations.
use dhan_bot.Prelude.{
  ℕ, zero, suc, ◌+◌, ◌≤◌, ◌≡◌, refl, arith, true, List, [], ◌∷◌, map, All, All-drop, All-sort_by,
  sum_of, sum_of-sort_by, length, drop, select, leb, Ordered, sort_by, sort_by-Ordered, Bool-cases,
  inl, inr, if◌then◌else◌, ok, eq_iff, length-sort_by, ◌∙◌, last_n, ◌-◌,
}
use dhan_bot.Domain.{CasStatus, IndexObservation, cts_close}
use dhan_bot.Strategy.Usable.{IsUsable, IsEligibleOf, IsEligibleOf-IsUsable, All-imp, select-All}
use dhan_bot.Strategy.Boundary.{
  Identity, raw, made, seen, same_identity, identity_of, event_of, Reference, is_eligible,
  put_observation, by_identity, not_after, last_five, third, select_reference,
}

pub same_identity-eq : (a b : Identity) → same_identity a b ≡ true → a ≡ b
same_identity-eq (raw a) (raw b) h = ground (arith, eq_iff a b)
same_identity-eq (made a i j k) (made b x y z) h = ground (arith, eq_iff a b)
same_identity-eq (seen a i j) (seen b x y) h = ground (arith, eq_iff a b)
same_identity-eq (raw a) (made b x y z) h = cc
same_identity-eq (raw a) (seen b x y) h = cc
same_identity-eq (made a i j k) (raw b) h = cc
same_identity-eq (made a i j k) (seen b x y) h = cc
same_identity-eq (seen a i j) (raw b) h = cc
same_identity-eq (seen a i j) (made b x y z) h = cc

-- How many observations have an identity.
abbrev pub tally : Identity → List IndexObservation → ℕ
tally i = sum_of (λ (x : IndexObservation). if same_identity (identity_of x) i then 1 else 0)

-- The number of values up to a bound, and from a bound on.
abbrev pub at_most_count : ℕ → List ℕ → ℕ
at_most_count m = sum_of (λ (v : ℕ). if leb v m then 1 else 0)

abbrev pub at_least_count : ℕ → List ℕ → ℕ
at_least_count m = sum_of (λ (v : ℕ). if leb m v then 1 else 0)

tally-put_absent :
    (i : Identity) (x : IndexObservation) (t : List IndexObservation)
    → tally i (put_observation x t) ≤ tally i t + tally i (x ∷ [])
unfolding put_observation
tally-put_absent i x [] = omega arith
tally-put_absent i x (y ∷ ys) = elim (Bool-cases (same_identity (identity_of y) (identity_of x))) [
  | inl same ↦ rw same (omega arith)
  | inr other ↦ rw other (omega (arith, tally-put_absent i x ys))
]

pub same_identity_refl : (a : Identity) → same_identity a a ≡ true
same_identity_refl (raw a) = ground (arith, eq_iff a a)
same_identity_refl (made a i j k) = ground (arith, eq_iff a a)
same_identity_refl (seen a i j) = ground (arith, eq_iff a a)

same_identity_join :
    (a b i : Identity)
    → same_identity a i ≡ true
    → same_identity b i ≡ true
    → same_identity a b ≡ true
same_identity_join a b i h k =
    rw (same_identity-eq a i h) (rw (same_identity-eq b i k) (same_identity_refl i))

-- Putting an observation into a table keeps every identity in it once.
tally-put_observation :
    (i : Identity) (x : IndexObservation) (t : List IndexObservation)
    → tally i t ≤ 1
    → tally i (put_observation x t) ≤ 1
unfolding put_observation
tally-put_observation i x [] h = ground arith
tally-put_observation i x (y ∷ ys) h =
    elim (Bool-cases (same_identity (identity_of y) (identity_of x))) [
      | inl same ↦ rw same (rw (← same_identity-eq (identity_of y) (identity_of x) same) h)
      | inr other ↦ rw other (elim (Bool-cases (same_identity (identity_of y) i)) [
        | inr different ↦
            let rest = rw different at h in
            rw different (omega (arith, tally-put_observation i x ys (omega (arith, rest))))
        | inl taken ↦ elim (Bool-cases (same_identity (identity_of x) i)) [
          | inl both ↦ absurd (
              let e = same_identity_join (identity_of y) (identity_of x) i taken both in
              ground (arith, e, other))
          | inr apart ↦
              let bound = tally-put_absent i x ys in
              let free = rw taken at h in rw taken (omega (arith, free, rw apart at bound))
        ]
      ])
    ]

by_identity-tally :
    (i : Identity) (t xs : List IndexObservation) → tally i t ≤ 1 → tally i (by_identity t xs) ≤ 1
unfolding by_identity
by_identity-tally i t [] h = h
by_identity-tally i t (x ∷ xs) h =
    by_identity-tally i (put_observation x t) xs (tally-put_observation i x t h)

sum_of-drop {ℓ} :
    {A : Type ℓ} (f : A → ℕ) (n : ℕ) (xs : List A) → sum_of f (drop n xs) ≤ sum_of f xs
sum_of-drop f zero xs = omega arith
sum_of-drop f (suc n) [] = omega arith
sum_of-drop f (suc n) (x ∷ xs) = omega (arith, sum_of-drop f n xs)

put_observation-All {κ} :
    (P : IndexObservation → Type κ) (x : IndexObservation) (t : List IndexObservation)
    → P x
    → All P t
    → All P (put_observation x t)
unfolding put_observation
put_observation-All P x [] h k = (h, tt)
put_observation-All P x (y ∷ ys) h k =
    elim (Bool-cases (same_identity (identity_of y) (identity_of x))) [
      | inl same ↦ rw same (h, k.1)
      | inr other ↦ rw other (k.0, put_observation-All P x ys h k.1)
    ]

by_identity-All {κ} :
    (P : IndexObservation → Type κ) (t xs : List IndexObservation)
    → All P t
    → All P xs
    → All P (by_identity t xs)
unfolding by_identity
by_identity-All P t [] h k = h
by_identity-All P t (x ∷ xs) h k =
    by_identity-All P (put_observation x t) xs (put_observation-All P x t k.0 h) k.1

third-median :
    (a b c d e : ℕ)
    → Ordered leb (a ∷ b ∷ c ∷ d ∷ e ∷ [])
    → (3 ≤ at_most_count c (a ∷ b ∷ c ∷ d ∷ e ∷ []))
      × (3 ≤ at_least_count c (a ∷ b ∷ c ∷ d ∷ e ∷ []))
third-median a b c d e h = (ground arith, ground arith)

-- A list of five is its members.
abbrev pub MedianOf : ℕ → List ℕ → Type 0
MedianOf m vs = (3 ≤ at_most_count m vs) × (3 ≤ at_least_count m vs)

third-MedianOf : (vs : List ℕ) → length vs ≡ 5 → Ordered leb vs → MedianOf (third vs) vs
third-MedianOf (a ∷ b ∷ c ∷ d ∷ e ∷ []) n h = third-median a b c d e h
third-MedianOf (a ∷ b ∷ c ∷ d ∷ e ∷ f ∷ vs) n h = absurd (omega (arith, n))
third-MedianOf (a ∷ b ∷ c ∷ d ∷ []) n h = absurd (omega (arith, n))
third-MedianOf (a ∷ b ∷ c ∷ []) n h = absurd (omega (arith, n))
third-MedianOf (a ∷ b ∷ []) n h = absurd (omega (arith, n))
third-MedianOf (a ∷ []) n h = absurd (omega (arith, n))
third-MedianOf [] n h = absurd (omega (arith, n))

length-map : {A : Type 0} (f : A → ℕ) (xs : List A) → length (map f xs) ≡ length xs
length-map f [] = refl
length-map f (x ∷ xs) = omega (arith, length-map f xs)

sorted-MedianOf : (vs : List ℕ) → length vs ≡ 5 → MedianOf (third (sort_by leb vs)) vs
sorted-MedianOf vs n =
    let ws = sort_by leb vs in
    let m = third ws in
    let h =
      third-MedianOf ws (length-sort_by leb vs ∙ n)
        (sort_by-Ordered leb (λ x y z e f. ground arith) (λ x y e. ground arith) vs) in
    let low = sum_of-sort_by leb (λ (v : ℕ). if leb v m then 1 else 0) vs in
    let high = sum_of-sort_by leb (λ (v : ℕ). if leb m v then 1 else 0) vs in
    (omega (arith, h.0, low), omega (arith, h.1, high))

sorted_table-tally :
    (i : Identity) (xs : List IndexObservation)
    → tally i (last_n 5 (sort_by not_after (by_identity [] xs))) ≤ 1
sorted_table-tally i xs =
    let f : IndexObservation → ℕ = λ x. if same_identity (identity_of x) i then 1 else 0 in
    let table = by_identity [] xs in
    let sorted = sort_by not_after table in
    omega (
      arith,
      sum_of-drop f (length sorted - 5) sorted,
      sum_of-sort_by not_after f table,
      by_identity-tally i [] xs (omega arith),
    )

-- A reference is selected only at the close of the session with a clock that is uncertain by at most
-- 100 ms. It then stands on five of the given observations, no two of one identity, each with the
-- epoch of the status, a live feed's frame and a wrapper, and by the provider's time and by the time
-- of its reception (the uncertainty added) before the time of the status and at most 30 s old; its value is their median (three
-- of the five are at most it and three are at least it), its events are theirs, and its boundary and
-- epoch are those of the status.
pub select_reference-MedianOf :
    (xs : List IndexObservation) (s : CasStatus) (uncertainty : ℕ) (r : Reference)
    → select_reference xs s uncertainty ≡ ok r
    → (s.phase ≡ cts_close)
      × (uncertainty ≤ 100)
      × (r.boundary_ms ≡ s.updated_time_ms)
      × (r.epoch ≡ s.status_epoch)
      × (five : List IndexObservation) × (length five ≡ 5)
      × All (IsUsable xs s uncertainty) five
      × ((i : Identity) → tally i five ≤ 1)
      × (r.event_ids ≡ map event_of five)
      × MedianOf r.value (map (λ (x : IndexObservation). x.value) five)
unfolding select_reference last_five
select_reference-MedianOf xs s uncertainty r h =
    let eligible = select (is_eligible s uncertainty) xs in
    let table = by_identity [] eligible in
    let sorted = sort_by not_after table in
    let five = last_n 5 sorted in
    let n : length five ≡ 5 = ground arith in
    let median =
      sorted-MedianOf (map (λ (x : IndexObservation). x.value) five)
        (length-map (λ (x : IndexObservation). x.value) five ∙ n) in
    let good = All-drop (IsEligibleOf s uncertainty xs) (length sorted - 5) sorted (
      All-sort_by not_after (IsEligibleOf s uncertainty xs) table (
        by_identity-All (IsEligibleOf s uncertainty xs) [] eligible tt
          (select-All (is_eligible s uncertainty) xs))) in
    let e : r.value ≡ third (sort_by leb (map (λ (x : IndexObservation). x.value) five)) =
      ground arith in
    (
      ground arith,
      ground arith,
      ground arith,
      ground arith,
      five,
      n,
      All-imp (IsEligibleOf s uncertainty xs) (IsUsable xs s uncertainty)
          (λ x. IsEligibleOf-IsUsable s uncertainty xs x) five good,
      λ i. sorted_table-tally i eligible,
      ground arith,
      rw e median,
    )
