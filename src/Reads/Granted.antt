-- ===== src/Reads/Granted.antt =====
-- Every read that is waited for is granted, whatever else happens at its own priority or below.
use dhan_bot.Prelude.{
  ℕ, zero, suc, ◌≤◌, ◌<◌, ◌≡◌, ◌≢◌, arith, Bool, true, false, Option, none, some, List, [], ◌∷◌,
  insert_by, length, All, any, Bool-cases, inl, inr,
}
use dhan_bot.Reads.Queue.{
  Waiter, comes_first, ReadScheduler, new_scheduler, acquire, cancel, pop_live, wake, Event,
  acquires, cancels, wakes, run, also_granted,
}
use dhan_bot.Reads.Rank.{is_waiter, rank, pop-first, pop-later, rank-insert_by, rank-cancelled}
use dhan_bot.Reads.Kept.{
  IsQueue, run-IsQueue, new_scheduler-IsQueue, acquire-IsQueue, cancel-IsQueue, wake-IsQueue,
}

-- Later events that leave the waiter of priority p with number n its turn: nobody comes before it,
-- and it is not cancelled.
abbrev pub IsHarmless : ℕ → ℕ → Event → Type 0
IsHarmless p n (acquires q) = p ≤ q
IsHarmless p n (cancels m) = n ≢ m
IsHarmless p n (wakes now) = Unit

abbrev pub rounds : List Event → ℕ
rounds [] = 0
rounds (acquires q ∷ events) = rounds events
rounds (cancels m ∷ events) = rounds events
rounds (wakes now ∷ events) = suc (rounds events)

any-also_granted :
    (f : Waiter → Bool) (o : Option Waiter) (ws : List Waiter)
    → any f ws ≡ true
    → any f (also_granted o ws) ≡ true
any-also_granted f none ws h = h
any-also_granted f (some w) ws h = ground arith

any-granted :
    (f : Waiter → Bool) (o : Option Waiter) (w : Waiter) (ws : List Waiter)
    → o ≡ some w
    → f w ≡ true
    → any f (also_granted o ws) ≡ true
any-granted f o w ws e h = rw (e, h)

granted_in_rank :
    (p n r : ℕ) (events : List Event) (s : ReadScheduler)
    → IsQueue s
    → n < s.sequence
    → rank p n s.waiters ≡ some r
    → All (IsHarmless p n) events
    → r < rounds events
    → any (is_waiter p n) (run events s).1 ≡ true
unfolding run
granted_in_rank p n r [] s q old h harmless enough = absurd (omega arith)
granted_in_rank p n r (acquires k ∷ events) s q old h harmless enough =
    granted_in_rank p n r events (acquire k s) (acquire-IsQueue k s q) (omega (arith, old))
      (rank-insert_by p n r (record { priority = k; sequence = s.sequence; done = false }) s.waiters
        harmless.0 (omega (arith, old)) q.numbered q.sorted h)
      harmless.1 enough
granted_in_rank p n r (cancels m ∷ events) s q old h harmless enough =
    let (k, e, fewer) = rank-cancelled p n m r s.waiters harmless.0 h in
    granted_in_rank p n k events (cancel m s) (cancel-IsQueue m s q) old e harmless.1
      (omega (arith, fewer))
granted_in_rank p n zero (wakes now ∷ events) s q old h harmless enough =
    let (w, popped, same) = pop-first p n s.waiters h in
    any-granted (is_waiter p n) (pop_live s.waiters).0 w _ popped same
granted_in_rank p n (suc r) (wakes now ∷ events) s q old h harmless enough =
    any-also_granted (is_waiter p n) (pop_live s.waiters).0 _ (
      granted_in_rank p n r events (wake now s).0 (wake-IsQueue now s q) old
        (pop-later p n r s.waiters h) harmless.1 (omega arith))

rank-new :
    (p n : ℕ) (ws : List Waiter)
    → All (λ w. w.sequence < n) ws
    → (r : ℕ) × (rank p n
          (insert_by comes_first (record { priority = p; sequence = n; done = false }) ws)
        ≡ some r)
      × (r ≤ length ws)
unfolding rank insert_by
rank-new p n [] h = (0, ground arith, omega arith)
rank-new p n (w ∷ ws) h =
    let x : Waiter = record { priority = p; sequence = n; done = false } in
    let (r, ih, few) = rank-new p n ws h.1 in
    elim (Bool-cases (comes_first x w)) [
      | inl first ↦ (0, rw first (ground arith), omega arith)
      | inr later ↦ elim (Bool-cases w.done) [
        | inl gone ↦ (r, rw later (ground arith), omega (arith, few))
        | inr live ↦ (suc r, rw later (ground arith), omega (arith, few))
      ]
    ]

-- A read that is asked for at any moment is granted in time: with any events before, if nobody asks
-- at a smaller priority number afterwards and the read itself is not cancelled, then as many rounds
-- of the worker as there were waiters, and one more, grant it, whatever else is asked for or
-- cancelled in between.
pub acquire-granted :
    (interval p : ℕ) (earlier later : List Event)
    → let s = (run earlier (new_scheduler interval)).0 in
      All (IsHarmless p s.sequence) later
      → length s.waiters < rounds later
      → any (is_waiter p s.sequence) (run later (acquire p s)).1 ≡ true
acquire-granted interval p earlier later harmless enough =
    let s = (run earlier (new_scheduler interval)).0 in
    let q = run-IsQueue earlier (new_scheduler interval) (new_scheduler-IsQueue interval) in
    let (r, placed, few) = rank-new p s.sequence s.waiters q.numbered in
    granted_in_rank p s.sequence r later (acquire p s) (acquire-IsQueue p s q)
      (unfold acquire in omega arith) (unfold acquire in placed) harmless
      (omega (arith, few, enough))
