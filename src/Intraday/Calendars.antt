-- ===== src/Intraday/Calendars.antt =====
-- `Calendar`, `parse_session` and `next_check` of dhan_cas_bot/session_strategies.py. A time is the
-- microseconds of the Indian clock, so that its day and its time of day are a quotient and a
-- remainder; a day is its number.
use dhan_bot.Prelude.{
  ℕ, zero, suc, ◌+◌, ◌-◌, ◌*◌, ◌/◌, ◌%◌, String, Bool, true, false, not, ◌&&◌, ◌||◌, Option, none,
  some, List, [], ◌∷◌, ltb, leb, ◌==◌, str_eq, if◌then◌else◌, any, select, Result, ok, err,
  raise_if, ◌>>◌,
}

abbrev pub minute : ℕ
minute = 60000000

abbrev pub day_length : ℕ
day_length = 86400000000

-- The Indian clock is 5½ hours ahead.
abbrev pub zone : ℕ
zone = 19800000000

abbrev pub day_of : ℕ → ℕ
day_of t = t / day_length

abbrev pub time_of : ℕ → ℕ
time_of t = t % day_length

abbrev pub combine : ℕ → ℕ → ℕ
combine day time = day * day_length + time

abbrev pub clock : ℕ → ℕ → ℕ
clock h m = (h * 60 + m) * minute

-- `opens` and `closes` are there both or not at all.
pub record Calendar : Type 0 where
  pub session : Option (ℕ × ℕ)
  pub previous_closes : ℕ
  pub next_opens : ℕ
  pub next_closes : ℕ
  pub checked_at : ℕ
  pub day : Option ℕ
  pub previous_spot_closes : Option ℕ

abbrev pub session_day : Option (ℕ × ℕ) → Option ℕ → Option ℕ
session_day (some (opens, closes)) day = some (day_of opens)
session_day none day = day

abbrev pub is_day : ℕ → Option ℕ → Bool
is_day d none = false
is_day d (some e) = e == d

-- Checked on the same day, in the last twelve hours, about this day.
unfoldable pub fresh : Calendar → ℕ → Bool
fresh c now =
    day_of c.checked_at == day_of now
    && (leb c.checked_at now
        && (leb (now - c.checked_at) (12 * 60 * minute)
            && is_day (day_of now) (session_day c.session c.day)))

abbrev pub is_within : ℕ → Option (ℕ × ℕ) → Bool
is_within now none = false
is_within now (some (opens, closes)) = leb opens now && ltb now closes

unfoldable pub is_open : Calendar → ℕ → Bool
unfolding fresh
is_open c now = fresh c now && is_within now c.session

-- A time of the exchange's answer, in milliseconds of the universal clock.
pub data Stamp : Type 0 where
  missing : Stamp
  not_integral : Stamp
  at_ms : ℕ → Stamp

-- A row that is no dictionary, or has no exchange, has the empty text as its exchange.
pub record SessionRow : Type 0 where
  pub exchange : String
  pub start_time : Stamp
  pub end_time : Stamp

abbrev pub from_ms : ℕ → ℕ
from_ms ms = ms * 1000 + zone

abbrev pub hours : ℕ → Stamp → Stamp → Result (Option (ℕ × ℕ))
hours day (at_ms s) (at_ms e) = do
  raise_if
      (not (day_of (from_ms s) == day)
        || (not (day_of (from_ms e) == day) || leb (from_ms e) (from_ms s)))
      "inconsistent calendar date"
  ok (some (from_ms s, from_ms e))
hours day missing e = err "invalid calendar timestamps"
hours day s missing = err "invalid calendar timestamps"
hours day s e = err "nonintegral calendar timestamp"

abbrev pub only_session : ℕ → List SessionRow → Result (Option (ℕ × ℕ))
only_session day [] = ok none
only_session day (r ∷ []) = hours day r.start_time r.end_time
only_session day (r ∷ q ∷ rows) = err "ambiguous trading session"

abbrev pub read_rows : ℕ → String → Option (List SessionRow) → Result (Option (ℕ × ℕ))
read_rows day exchange none = err "market calendar unavailable"
read_rows day exchange (some rows) = do
  raise_if (any (λ (r : SessionRow). str_eq r.exchange "") rows) "invalid market calendar row"
  only_session day (select (λ (r : SessionRow). str_eq r.exchange exchange) rows)

-- `none` stands for an answer that is no success with a list of rows.
unfoldable pub parse_session : Option (List SessionRow) → ℕ → String → Result (Option (ℕ × ℕ))
parse_session payload day exchange = read_rows day exchange payload

-- The two rules of this file.
pub data Strategy : Type 0 where
  gap_fade rebound : Strategy

abbrev pub is_gap : Strategy → Bool
is_gap gap_fade = true
is_gap rebound = false

abbrev pub contains_day : List ℕ → ℕ → Bool
contains_day days d = any (λ (e : ℕ). e == d) days

-- `range(45, 151, 5)` minutes after nine, as times of day: `count` of them from the minute `m` on.
unfoldable pub marks : ℕ → ℕ → List ℕ
marks zero m = []
marks (suc count) m = clock 9 m ∷ marks count (m + 5)

abbrev pub clocks : Strategy → List ℕ
clocks gap_fade = marks 22 45
clocks rebound = clock 15 10 ∷ []

-- The first clock of a session that is still to come and lies in it.
unfoldable pub next_clock : ℕ → ℕ → ℕ → List ℕ → Option ℕ
next_clock now opens closes [] = none
next_clock now opens closes (time ∷ times) =
    let candidate = combine (day_of opens) time in
    let later = next_clock now opens closes times in
    if ltb now candidate && (ltb opens candidate && ltb candidate closes)
    then some candidate
    else later

unfoldable pub check_in : Strategy → ℕ → List ℕ → Option (ℕ × ℕ) → Option ℕ
unfolding next_clock marks
check_in s now expiries none = none
check_in s now expiries (some (opens, closes)) =
    if not (time_of opens == clock 9 15) || (is_gap s && contains_day expiries (day_of opens))
    then none
    else next_clock now opens closes (clocks s)

abbrev pub or_else : Option ℕ → Option ℕ → Option ℕ
or_else none b = b
or_else (some a) b = some a

unfoldable pub next_check : Strategy → ℕ → Option Calendar → List ℕ → Option ℕ
unfolding fresh check_in
next_check s now none expiries = none
next_check s now (some c) expiries =
    if fresh c now
    then or_else (check_in s now expiries c.session)
        (check_in s now expiries (some (c.next_opens, c.next_closes)))
    else none
