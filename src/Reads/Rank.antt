-- ===== src/Reads/Rank.antt =====
-- The place of a waiter in the queue of the reads, and what each event does to it.
use dhan_bot.Prelude.{
  ℕ, suc, ◌≤◌, ◌<◌, ◌≡◌, ◌≢◌, arith, Bool, true, false, ◌&&◌, Option, none, some, List, [], ◌∷◌,
  map, ◌==◌, if◌then◌else◌, insert_by, All, Ordered, Bool-cases, Option-cases, inl, inr,
}
use dhan_bot.Reads.Queue.{Waiter, comes_first, cancelled, pop_live}

abbrev pub is_waiter : ℕ → ℕ → Waiter → Bool
is_waiter p n w = w.sequence == n && w.priority == p

abbrev pub behind : Waiter → Option ℕ → Option ℕ
behind w none = none
behind w (some r) = some (if w.done then r else suc r)

-- How many live waiters come before the one of priority p with number n, if that one is live.
unfoldable pub rank : ℕ → ℕ → List Waiter → Option ℕ
rank p n [] = none
rank p n (w ∷ ws) =
    let later = behind w (rank p n ws) in
    if is_waiter p n w then (if w.done then none else some 0) else later

pub pop-first :
    (p n : ℕ) (ws : List Waiter)
    → rank p n ws ≡ some 0
    → (w : Waiter) × ((pop_live ws).0 ≡ some w) × (is_waiter p n w ≡ true)
unfolding rank pop_live
pop-first p n [] h = cc
pop-first p n (w ∷ ws) h = elim (Bool-cases w.done) [
  | inl gone ↦
      (let e : rank p n ws ≡ some 0 = ground arith in
        let (v, popped, same) = pop-first p n ws e in (v, ground arith, same))
  | inr live ↦ (w, ground arith, ground arith)
]

pub pop-later :
    (p n r : ℕ) (ws : List Waiter) → rank p n ws ≡ some (suc r) → rank p n (pop_live ws).1 ≡ some r
unfolding rank pop_live
pop-later p n r [] h = cc
pop-later p n r (w ∷ ws) h = elim (Bool-cases w.done) [
  | inl gone ↦
      (let e : rank p n ws ≡ some (suc r) = ground arith in
        let ih = pop-later p n r ws e in ground arith)
  | inr live ↦ ground arith
]

rank_rest :
    (p n r : ℕ) (w : Waiter) (ws : List Waiter)
    → is_waiter p n w ≡ false
    → rank p n (w ∷ ws) ≡ some r
    → (k : ℕ) × (rank p n ws ≡ some k)
unfolding rank
rank_rest p n r w ws other h = elim (Option-cases (rank p n ws)) [
  | inl e ↦ absurd (ground arith)
  | inr (k, e) ↦ (k, e)
]

-- A waiter that comes before all of a list has no greater priority number than one in it.
priority_le :
    (p n r : ℕ) (w : Waiter) (ws : List Waiter)
    → rank p n ws ≡ some r
    → All (λ y. comes_first w y ≡ true) ws
    → w.priority ≤ p
unfolding rank
priority_le p n r w [] h a = cc
priority_le p n r w (y ∷ ys) h a = elim (Bool-cases (is_waiter p n y)) [
  | inl found ↦ ground arith
  | inr other ↦ (let (k, e) = rank_rest p n r y ys other h in priority_le p n k w ys e a.1)
]

pub rank-insert_by :
    (p n r : ℕ) (x : Waiter) (ws : List Waiter)
    → p ≤ x.priority
    → n ≢ x.sequence
    → All (λ y. y.sequence < x.sequence) ws
    → Ordered comes_first ws
    → rank p n ws ≡ some r
    → rank p n (insert_by comes_first x ws) ≡ some r
unfolding rank insert_by
rank-insert_by p n r x [] le ne older sorted h = cc
rank-insert_by p n r x (w ∷ ws) le ne older sorted h = elim (Bool-cases (is_waiter p n w)) [
  | inl found ↦ (let after : comes_first x w ≡ false = ground arith in rw after (ground arith))
  | inr other ↦
      (let (k, e) = rank_rest p n r w ws other h in
        let first : w.priority ≤ p = priority_le p n k w ws e sorted.0 in
        let after : comes_first x w ≡ false = ground arith in
        let ih = rank-insert_by p n k x ws le ne older.1 sorted.1 e in rw after (ground arith))
]

pub rank-cancelled :
    (p n m r : ℕ) (ws : List Waiter)
    → n ≢ m
    → rank p n ws ≡ some r
    → (k : ℕ) × (rank p n (map (cancelled m) ws) ≡ some k) × (k ≤ r)
unfolding rank
rank-cancelled p n m r [] ne h = cc
rank-cancelled p n m r (w ∷ ws) ne h = elim (Bool-cases (is_waiter p n w)) [
  | inl found ↦ (0, ground arith, omega arith)
  | inr other ↦
      (let (j, e) = rank_rest p n r w ws other h in
        let (k, ih, fewer) = rank-cancelled p n m j ws ne e in
        elim (Bool-cases (w.sequence == m)) [
          | inl struck ↦ (k, ground arith, ground arith)
          | inr kept ↦ elim (Bool-cases w.done) [
            | inl gone ↦ (k, ground arith, ground arith)
            | inr live ↦ (suc k, ground arith, ground arith)
          ]
        ])
]
