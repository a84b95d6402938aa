-- ===== src/Reads/Kept.antt =====
-- What every event keeps of the queue of dhan_cas_bot/read_scheduler.py: its order and its numbers.
use dhan_bot.Prelude.{
  ℕ, ◌+◌, ◌<◌, ◌≡◌, refl, sym, arith, true, false, some, List, [], ◌∷◌, map, All, Ordered,
  Bool-cases, inl, inr, insert_by-Ordered, All-insert_by, ◌∙◌, subst,
}
use dhan_bot.Reads.Queue.{
  Waiter, comes_first, ReadScheduler, new_scheduler, acquire, cancel, cancelled, pop_live, wake,
  Event, acquires, cancels, wakes, run, has_more,
}

-- The waiters stand in order and have numbers that were drawn before, and a worker is there when
-- somebody waits.
pub record IsQueue (s : ReadScheduler) : Type 0 where
  pub sorted : Ordered comes_first s.waiters
  pub numbered : All (λ w. w.sequence < s.sequence) s.waiters
  pub served : has_more s.waiters ≡ true → s.working ≡ true

comes_first_trans :
    (x y z : Waiter) → comes_first x y ≡ true → comes_first y z ≡ true → comes_first x z ≡ true
comes_first_trans x y z h k = ground arith

comes_first_total : (x y : Waiter) → comes_first x y ≡ false → comes_first y x ≡ true
comes_first_total x y h = ground arith

numbered_more :
    (n : ℕ) (ws : List Waiter) → All (λ w. w.sequence < n) ws → All (λ w. w.sequence < n + 1) ws
numbered_more n [] h = tt
numbered_more n (w ∷ ws) h = (omega (arith, h.0), numbered_more n ws h.1)

pub new_scheduler-IsQueue : (interval : ℕ) → IsQueue (new_scheduler interval)
unfolding new_scheduler
new_scheduler-IsQueue interval = record { sorted = tt; numbered = tt; served = λ e. cc }

pub acquire-IsQueue : (p : ℕ) (s : ReadScheduler) → IsQueue s → IsQueue (acquire p s)
unfolding acquire
acquire-IsQueue p s q = record {
  sorted = insert_by-Ordered comes_first comes_first_trans comes_first_total _ s.waiters q.sorted;
  numbered =
      All-insert_by comes_first (λ w. w.sequence < s.sequence + 1)
        (record { priority = p; sequence = s.sequence; done = false }) s.waiters (omega arith)
        (numbered_more s.sequence s.waiters q.numbered);
  served = λ e. refl;
}

-- Marking a future as done changes neither its place nor its number.
first_cancelled :
    (n : ℕ) (x : Waiter) (ws : List Waiter)
    → All (λ y. comes_first x y ≡ true) ws
    → All (λ y. comes_first (cancelled n x) y ≡ true) (map (cancelled n) ws)
first_cancelled n x [] h = tt
first_cancelled n x (w ∷ ws) h = (ground arith, first_cancelled n x ws h.1)

cancelled-Ordered :
    (n : ℕ) (ws : List Waiter) → Ordered comes_first ws → Ordered comes_first (map (cancelled n) ws)
cancelled-Ordered n [] h = tt
cancelled-Ordered n (w ∷ ws) h = (first_cancelled n w ws h.0, cancelled-Ordered n ws h.1)

cancelled-numbered :
    (n m : ℕ) (ws : List Waiter)
    → All (λ w. w.sequence < m) ws
    → All (λ w. w.sequence < m) (map (cancelled n) ws)
cancelled-numbered n m [] h = tt
cancelled-numbered n m (w ∷ ws) h = (ground arith, cancelled-numbered n m ws h.1)

has_more-cancelled : (n : ℕ) (ws : List Waiter) → has_more (map (cancelled n) ws) ≡ has_more ws
has_more-cancelled n [] = refl
has_more-cancelled n (w ∷ ws) = refl

pub cancel-IsQueue : (n : ℕ) (s : ReadScheduler) → IsQueue s → IsQueue (cancel n s)
unfolding cancel
cancel-IsQueue n s q = record {
  sorted = cancelled-Ordered n s.waiters q.sorted;
  numbered = cancelled-numbered n s.sequence s.waiters q.numbered;
  served = λ e. q.served (sym (has_more-cancelled n s.waiters) ∙ e);
}

pop_gone : (w : Waiter) (ws : List Waiter) → w.done ≡ true → pop_live (w ∷ ws) ≡ pop_live ws
unfolding pop_live
pop_gone w ws h = ground arith

pop_kept : (w : Waiter) (ws : List Waiter) → w.done ≡ false → pop_live (w ∷ ws) ≡ (some w, ws)
unfolding pop_live
pop_kept w ws h = ground arith

pop_live-Ordered : (ws : List Waiter) → Ordered comes_first ws → Ordered comes_first (pop_live ws).1
unfolding pop_live
pop_live-Ordered [] h = tt
pop_live-Ordered (w ∷ ws) h = elim (Bool-cases w.done) [
  | inl gone ↦
      subst (λ o. Ordered comes_first o.1) (sym (pop_gone w ws gone)) (pop_live-Ordered ws h.1)
  | inr live ↦ subst (λ o. Ordered comes_first o.1) (sym (pop_kept w ws live)) h.1
]

pop_live-numbered :
    (n : ℕ) (ws : List Waiter)
    → All (λ w. w.sequence < n) ws
    → All (λ w. w.sequence < n) (pop_live ws).1
unfolding pop_live
pop_live-numbered n [] h = tt
pop_live-numbered n (w ∷ ws) h = elim (Bool-cases w.done) [
  | inl gone ↦
      subst (λ o. All (λ w. w.sequence < n) o.1) (sym (pop_gone w ws gone))
        (pop_live-numbered n ws h.1)
  | inr live ↦ subst (λ o. All (λ w. w.sequence < n) o.1) (sym (pop_kept w ws live)) h.1
]

pub wake-IsQueue : (now : ℕ) (s : ReadScheduler) → IsQueue s → IsQueue (wake now s).0
unfolding wake
wake-IsQueue now s q = record {
  sorted = pop_live-Ordered s.waiters q.sorted;
  numbered = pop_live-numbered s.sequence s.waiters q.numbered;
  served = λ e. e;
}

pub run-IsQueue : (events : List Event) (s : ReadScheduler) → IsQueue s → IsQueue (run events s).0
unfolding run
run-IsQueue [] s q = q
run-IsQueue (acquires p ∷ events) s q = run-IsQueue events (acquire p s) (acquire-IsQueue p s q)
run-IsQueue (cancels n ∷ events) s q = run-IsQueue events (cancel n s) (cancel-IsQueue n s q)
run-IsQueue (wakes now ∷ events) s q = run-IsQueue events (wake now s).0 (wake-IsQueue now s q)
