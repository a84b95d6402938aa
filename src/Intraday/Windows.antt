-- ===== src/Intraday/Windows.antt =====
-- The times that `next_check` announces are times at which `evaluate` applies its rule.
use dhan_bot.Prelude.{
  ℕ, ◌-◌, ◌*◌, ◌%◌, ◌<◌, ◌≡◌, inl, inr, refl, sym, ap, ◌∙◌, subst, arith, Bool, true, false, not,
  ◌&&◌, ◌||◌, Option, none, some, List, [], ◌∷◌, all, ltb, leb, ◌==◌, Bool-cases, Option-cases,
}
use dhan_bot.Intraday.Calendars.{
  Calendar, Strategy, gap_fade, rebound, minute, day_length, day_of, time_of, combine, clock,
  clocks, marks, fresh, is_open, is_within, check_in, next_clock, next_check, contains_day, is_gap,
  or_else,
}
use dhan_bot.Intraday.Bars.{Bar}
use dhan_bot.Intraday.Rules.{
  in_window, minute_start, is_empty, handled, apply_rule, evaluate, in_session,
}

time_of-combine : (d m : ℕ) → m < day_length → time_of (combine d m) ≡ m
time_of-combine d m h = omega arith

day_of-combine : (d m : ℕ) → m < day_length → day_of (combine d m) ≡ d
day_of-combine d m h = omega arith

-- A time of day at which a rule is asked, at the start of a minute.
abbrev is_mark : Strategy → ℕ → Bool
is_mark s m = ltb m day_length && (m % minute == 0 && in_window s m)

clocks-marks : (s : Strategy) → all (is_mark s) (clocks s) ≡ true
unfolding marks in_window
clocks-marks gap_fade = refl
clocks-marks rebound = refl

some_injective : {x y : ℕ} → some x ≡ some y → x ≡ y
some_injective h = ground arith

and_left : (a b : Bool) → (a && b) ≡ true → a ≡ true
and_left a b h = ground arith

and_right : (a b : Bool) → (a && b) ≡ true → b ≡ true
and_right a b h = ground arith

inside :
    (now opens closes t : ℕ)
    → (ltb now t && (ltb opens t && ltb t closes)) ≡ true
    → (now < t) × (opens < t) × (t < closes)
inside now opens closes t h = (ground arith, ground arith, ground arith)

regular_time : (a b : Bool) → (not a || b) ≡ false → a ≡ true
regular_time a b h = ground arith

regular_day : (a b : Bool) → (not a || b) ≡ false → b ≡ false
regular_day a b h = ground arith

-- An announced time is one of the rule's clocks on the session's day.
record IsAnnounced (s : Strategy) (now opens closes t : ℕ) : Type 0 where
  mark : ℕ
  marked : is_mark s mark ≡ true
  placed : t ≡ combine (day_of opens) mark
  ahead : now < t
  opened : opens < t
  before_close : t < closes

next_clock-IsAnnounced :
    (s : Strategy) (now opens closes t : ℕ) (times : List ℕ)
    → all (is_mark s) times ≡ true
    → next_clock now opens closes times ≡ some t
    → IsAnnounced s now opens closes t
unfolding next_clock
next_clock-IsAnnounced s now opens closes t [] marked h = absurd (ground arith)
next_clock-IsAnnounced s now opens closes t (m ∷ ms) marked h =
    let candidate = combine (day_of opens) m in
    elim (Bool-cases (ltb now candidate && (ltb opens candidate && ltb candidate closes))) [
      | inl fits ↦
          (let same : candidate ≡ t = some_injective (rw fits at h) in
            record {
              mark = m;
              marked = and_left (is_mark s m) (all (is_mark s) ms) marked;
              placed = sym same;
              ahead = subst (λ x. now < x) same (inside now opens closes candidate fits).0;
              opened = subst (λ x. opens < x) same (inside now opens closes candidate fits).1;
              before_close =
                  subst (λ x. x < closes) same (inside now opens closes candidate fits).2;
            })
      | inr later ↦
          next_clock-IsAnnounced s now opens closes t ms
            (and_right (is_mark s m) (all (is_mark s) ms) marked) (rw later at h)
    ]

-- A regular session in which a rule may be asked.
abbrev IsRegular : Strategy → List ℕ → ℕ → Type 0
IsRegular s expiries opens =
    ((time_of opens == clock 9 15) ≡ true)
    × ((is_gap s && contains_day expiries (day_of opens)) ≡ false)

check_in-IsAnnounced :
    (s : Strategy) (now : ℕ) (expiries : List ℕ) (opens closes t : ℕ)
    → check_in s now expiries (some (opens, closes)) ≡ some t
    → IsAnnounced s now opens closes t × IsRegular s expiries opens
unfolding check_in
check_in-IsAnnounced s now expiries opens closes t h =
    elim (Bool-cases
      (not (time_of opens == clock 9 15) || (is_gap s && contains_day expiries (day_of opens)))) [
        | inl skipped ↦ absurd (let e = rw skipped at h in ground (arith, e))
        | inr regular ↦ (
          next_clock-IsAnnounced s now opens closes t (clocks s) (clocks-marks s) (rw regular at h),
          (
            regular_time (time_of opens == clock 9 15) _ regular,
            regular_day (time_of opens == clock 9 15) _ regular,
          ),
        )
      ]

mark_facts :
    (s : Strategy) (m : ℕ)
    → is_mark s m ≡ true
    → (m < day_length) × (m % minute ≡ 0) × (in_window s m ≡ true)
mark_facts s m h = (ground arith, ground arith, ground arith)

minute_start-announced :
    (s : Strategy) (now opens closes t : ℕ) → IsAnnounced s now opens closes t → minute_start t ≡ t
minute_start-announced s now opens closes t a =
    let m = mark_facts s a.mark a.marked in
    let e : t ≡ combine (day_of opens) a.mark = a.placed in omega (arith, m.0, m.1, e)

in_window-announced :
    (s : Strategy) (now opens closes t : ℕ)
    → IsAnnounced s now opens closes t
    → in_window s t ≡ true
unfolding in_window
in_window-announced gap_fade now opens closes t a =
    let m = mark_facts gap_fade a.mark a.marked in
    let e : t ≡ combine (day_of opens) a.mark = a.placed in
    let same : time_of t ≡ time_of a.mark = omega (arith, m.0, e) in rw same m.2
in_window-announced rebound now opens closes t a =
    let m = mark_facts rebound a.mark a.marked in
    let e : t ≡ combine (day_of opens) a.mark = a.placed in
    let same : time_of t ≡ time_of a.mark = omega (arith, m.0, e) in rw same m.2

day_of-announced :
    (s : Strategy) (now opens closes t : ℕ)
    → IsAnnounced s now opens closes t
    → day_of t ≡ day_of opens
day_of-announced s now opens closes t a =
    let m = mark_facts s a.mark a.marked in
    let e : t ≡ combine (day_of opens) a.mark = a.placed in omega (arith, m.0, e)

with_session :
    (s : Strategy) (c : Calendar) (opens closes t : ℕ) (spot future : List Bar) (o : Option (ℕ × ℕ))
    → o ≡ some (opens, closes)
    → (time_of opens == clock 9 15) ≡ true
    → in_session s c t t spot future o ≡ handled (apply_rule s c opens closes t t spot future)
with_session s c opens closes t spot future o e regular =
    subst
      (λ x.
        in_session s c t t spot future x ≡ handled (apply_rule s c opens closes t t spot future))
      (sym e) (rw regular)

open_at :
    (c : Calendar) (opens closes t : ℕ)
    → c.session ≡ some (opens, closes)
    → fresh c t ≡ true
    → opens < t
    → t < closes
    → is_open c t ≡ true
unfolding is_open
open_at c opens closes t e f after before =
    rw f (subst (λ x. is_within t x ≡ true) (sym e) (ground arith))

applies :
    (s : Strategy) (now : ℕ) (expiries : List ℕ) (opens closes t : ℕ)
    → IsAnnounced s now opens closes t
    → IsRegular s expiries opens
    → is_empty expiries ≡ false
    → (later : Calendar) (spot future : List Bar) → later.session ≡ some (opens, closes)
    → fresh later t ≡ true
    → (evaluate s t (some later) spot future expiries t).verdict
      ≡ handled (apply_rule s later opens closes t t spot future)
unfolding evaluate
applies s now expiries opens closes t a r known later spot future e f =
    let in_time : (leb t t && leb (t - t) (90 * 1000000)) ≡ true = ground arith in
    let no_expiry =
      subst (λ d. (is_gap s && contains_day expiries d) ≡ false)
        (sym (day_of-announced s now opens closes t a)) r.1 in
    rw (minute_start-announced s now opens closes t a) (
      rw
        (
          in_time,
          f,
          open_at later opens closes t e f a.opened a.before_close,
          known,
          no_expiry,
          in_window-announced s now opens closes t a,
        )
        (with_session s later opens closes t spot future later.session e r.0))

-- The session that the next check is announced for: the calendar's own, if it has a clock left.
abbrev pub pick : Option ℕ → Option (ℕ × ℕ) → Option (ℕ × ℕ) → Option (ℕ × ℕ)
pick none own next = next
pick (some t) own next = own

abbrev pub announced_session : Strategy → ℕ → Calendar → List ℕ → Option (ℕ × ℕ)
announced_session s now c expiries =
    pick (check_in s now expiries c.session) c.session (some (c.next_opens, c.next_closes))

pair_injective : {p q : ℕ × ℕ} → some p ≡ some q → p ≡ q
pair_injective h = cc

own_session :
    (s : Strategy) (now : ℕ) (expiries : List ℕ) (t : ℕ) (own : Option (ℕ × ℕ)) (p : ℕ × ℕ)
    → own ≡ some p
    → check_in s now expiries own ≡ some t
    → IsAnnounced s now p.0 p.1 t × IsRegular s expiries p.0
own_session s now expiries t own p e h =
    check_in-IsAnnounced s now expiries p.0 p.1 t (sym (ap (check_in s now expiries) e) ∙ h)

from_sessions :
    (s : Strategy) (now : ℕ) (expiries : List ℕ) (t : ℕ) (own : Option (ℕ × ℕ)) (next p : ℕ × ℕ)
    → or_else (check_in s now expiries own) (check_in s now expiries (some next)) ≡ some t
    → pick (check_in s now expiries own) own (some next) ≡ some p
    → IsAnnounced s now p.0 p.1 t × IsRegular s expiries p.0
from_sessions s now expiries t own next p h k =
    let facts = λ (x : ℕ × ℕ). IsAnnounced s now x.0 x.1 t × IsRegular s expiries x.0 in
    elim (Option-cases (check_in s now expiries own)) [
      | inl e ↦
          subst facts (pair_injective (rw e at k))
            (check_in-IsAnnounced s now expiries next.0 next.1 t (rw e at h))
      | inr (u, e) ↦ own_session s now expiries t own p (rw e at k) (e ∙ (rw e at h))
    ]

session_of :
    (s : Strategy) (now : ℕ) (c : Calendar) (expiries : List ℕ) (t : ℕ) (p : ℕ × ℕ)
    → next_check s now (some c) expiries ≡ some t
    → announced_session s now c expiries ≡ some p
    → IsAnnounced s now p.0 p.1 t × IsRegular s expiries p.0
unfolding next_check
session_of s now c expiries t p h k = elim (Bool-cases (fresh c now)) [
  | inl f ↦ from_sessions s now expiries t c.session (c.next_opens, c.next_closes) p (rw f at h) k
  | inr stale ↦ absurd (let e = rw stale at h in ground (arith, e))
]

-- The next check that is announced is still to come and lies inside the session that it is announced
-- for. If at that time a calendar is fresh and has that session as its own, and the expiries are
-- known, then the evaluation on the bar of that minute is not put off: it is what the rule says of
-- the bars.
pub next_check-Applies :
    (s : Strategy) (now : ℕ) (c : Calendar) (expiries : List ℕ) (t opens closes : ℕ)
    (later : Calendar) (spot future : List Bar)
    → next_check s now (some c) expiries ≡ some t
    → is_empty expiries ≡ false
    → announced_session s now c expiries ≡ some (opens, closes)
    → later.session ≡ some (opens, closes)
    → fresh later t ≡ true
    → (now < t)
      × (opens < t)
      × (t < closes)
      × ((evaluate s t (some later) spot future expiries t).verdict
          ≡ handled (apply_rule s later opens closes t t spot future))
next_check-Applies s now c expiries t opens closes later spot future h known for e f =
    let a = session_of s now c expiries t (opens, closes) h for in
    (
      a.0.ahead,
      a.0.opened,
      a.0.before_close,
      applies s now expiries opens closes t a.0 a.1 known later spot future e f,
    )
