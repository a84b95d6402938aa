-- ===== src/Reads/Queue.antt =====
-- `ReadScheduler` of dhan_cas_bot/read_scheduler.py: tasks wait for a future each, and one worker
-- resolves the futures by priority and then by arrival, with a pause between two of them. The heap
-- of heapq is the list of its items in the order in which they come out. Times are microseconds.
use dhan_bot.Prelude.{
  ℕ, ◌+◌, ◌-◌, Bool, true, false, ◌&&◌, ◌||◌, Option, none, some, List, [], ◌∷◌, map, ltb, leb,
  ◌==◌, if◌then◌else◌, insert_by,
}

-- `(priority, sequence, future)`, with whether the future is done.
pub record Waiter : Type 0 where
  pub priority : ℕ
  pub sequence : ℕ
  pub done : Bool

-- The order of the tuples; no two of them have the same sequence number.
abbrev pub comes_first : Waiter → Waiter → Bool
comes_first a b =
    ltb a.priority b.priority || (a.priority == b.priority && leb a.sequence b.sequence)

-- `last` is minus infinity at the start.
pub record ReadScheduler : Type 0 where
  pub interval : ℕ
  pub last : Option ℕ
  pub waiters : List Waiter
  pub sequence : ℕ
  pub working : Bool

unfoldable pub new_scheduler : ℕ → ReadScheduler
new_scheduler interval = record {
  interval = interval;
  last = none;
  waiters = [];
  sequence = 0;
  working = false;
}

-- `acquire` until it waits, at the priority of its context.
unfoldable pub acquire : ℕ → ReadScheduler → ReadScheduler
acquire priority s =
    let waiter : Waiter = record { priority = priority; sequence = s.sequence; done = false } in
    record s {
      waiters = insert_by comes_first waiter s.waiters;
      sequence = s.sequence + 1;
      working = true;
    }

abbrev pub cancelled : ℕ → Waiter → Waiter
cancelled n w = if w.sequence == n then record w { done = true } else w

-- The task that waits is cancelled, and its future with it.
unfoldable pub cancel : ℕ → ReadScheduler → ReadScheduler
cancel n s = record s { waiters = map (cancelled n) s.waiters }

-- `max(0, interval - (now - last))`
unfoldable pub pause : ℕ → ReadScheduler → ℕ
pause now s = elim s.last [ none ↦ 0 | some t ↦ s.interval - (now - t) ]

-- The inner loop: futures that are done are dropped, up to the first that is not.
unfoldable pub pop_live : List Waiter → Option Waiter × List Waiter
pop_live [] = (none, [])
pop_live (w ∷ ws) = let rest = pop_live ws in if w.done then rest else (some w, ws)

abbrev pub last_after : ℕ → Option Waiter → Option ℕ → Option ℕ
last_after now none last = last
last_after now (some w) last = some now

abbrev pub has_more : List Waiter → Bool
has_more [] = false
has_more (w ∷ ws) = true

-- A round of the worker after its pause: the future that it resolves; it ends with the waiters.
unfoldable pub wake : ℕ → ReadScheduler → ReadScheduler × Option Waiter
unfolding pop_live
wake now s =
    let out = pop_live s.waiters in
    (
      record s { last = last_after now out.0 s.last; waiters = out.1; working = has_more out.1 },
      out.0,
    )

pub data Event : Type 0 where
  acquires : ℕ → Event
  cancels : ℕ → Event
  wakes : ℕ → Event

abbrev pub also_granted : Option Waiter → List Waiter → List Waiter
also_granted none later = later
also_granted (some w) later = w ∷ later

-- The state after some events, and who was granted a read meanwhile.
unfoldable pub run : List Event → ReadScheduler → ReadScheduler × List Waiter
unfolding acquire cancel wake
run [] s = (s, [])
run (acquires p ∷ events) s = run events (acquire p s)
run (cancels n ∷ events) s = run events (cancel n s)
run (wakes now ∷ events) s =
    let out = wake now s in let later = run events out.0 in (later.0, also_granted out.1 later.1)
