-- ===== src/Reads/Tests.antt =====
-- Tests of the queue of the reads, and an instance of its theorem.
use dhan_bot.Prelude.{ℕ, ◌≡◌, refl, true, List, [], ◌∷◌, any, map, insert_by, arith}
use dhan_bot.Reads.Queue.{Waiter, Event, acquires, cancels, wakes, new_scheduler, acquire, run}
use dhan_bot.Reads.Rank.{is_waiter}
use dhan_bot.Reads.Granted.{acquire-granted}

-- Two monitoring reads wait, the first is cancelled; an execution read overtakes the second.
abbrev earlier_events : List Event
earlier_events = acquires 10 ∷ acquires 10 ∷ cancels 0 ∷ []

abbrev overtaken : List ℕ
overtaken =
    map Waiter.sequence
      (run (acquires 10 ∷ acquires 10 ∷ cancels 0 ∷ acquires 0 ∷ wakes 1 ∷ wakes 2 ∷ [])
        (new_scheduler 110000)).1

run_overtaken : overtaken ≡ 2 ∷ 1 ∷ []
unfolding run new_scheduler insert_by
run_overtaken = refl

acquire-granted_example :
    any
      (is_waiter 2 2)
      (run
        (acquires 2 ∷ wakes 5 ∷ cancels 1 ∷ wakes 110005 ∷ wakes 220005 ∷ [])
        (acquire 2 (run earlier_events (new_scheduler 110000)).0)).1
    ≡ true
unfolding run new_scheduler insert_by
acquire-granted_example =
    acquire-granted 110000 2 earlier_events
      (acquires 2 ∷ wakes 5 ∷ cancels 1 ∷ wakes 110005 ∷ wakes 220005 ∷ [])
      (omega arith, (tt, (omega arith, (tt, (tt, tt))))) (omega arith)
