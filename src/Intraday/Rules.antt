-- ===== src/Intraday/Rules.antt =====
-- `evaluate` of dhan_cas_bot/session_strategies.py for the two rules of the file: the fade of a gap at
-- the open, and the rebound after a fall. Ratios are compared exactly, by products; the texts of
-- the details and the diagnostic conditions are left out.
use dhan_bot.Prelude.{
  ℕ, ◌+◌, ◌-◌, ◌*◌, ◌%◌, ◌/◌, String, Bool, true, false, not, ◌&&◌, ◌||◌, Option, none, some, List,
  [], ◌∷◌, ltb, leb, ◌==◌, if◌then◌else◌, find, Result, ok, err, raise_if, ◌>>=◌, ◌>>◌,
}
use dhan_bot.Domain.{OptionType, ce, pe}
use dhan_bot.Intraday.Calendars.{
  Calendar, Strategy, gap_fade, rebound, minute, day_of, time_of, combine, clock, fresh, is_open,
  next_check, contains_day, is_gap,
}
use dhan_bot.Intraday.Bars.{Bar}

pub data State : Type 0 where
  unknown waiting not_applicable no_signal signal : State

-- What a rule says, without the strategy, the time, the conditions and the next check.
pub record Verdict : Type 0 where
  pub state : State
  pub reason : String
  pub side : Option OptionType
  pub spot : Option ℕ
  pub minimum_expiry : Option ℕ
  pub exit_at : Option ℕ

pub record Evaluation : Type 0 where
  pub strategy : Strategy
  pub evaluated_at : ℕ
  pub verdict : Verdict
  pub next_check_at : Option ℕ

abbrev pub plain : State → String → Verdict
plain state reason = record {
  state = state;
  reason = reason;
  side = none;
  spot = none;
  minimum_expiry = none;
  exit_at = none;
}

abbrev pub minute_start : ℕ → ℕ
minute_start t = t - t % minute

-- `bars[at]`; a missing key raises.
abbrev pub found : Option Bar → Result Bar
found none = err "KeyError"
found (some b) = ok b

abbrev pub bar_at : ℕ → List Bar → Result Bar
bar_at at bars = found (find (λ (b : Bar). b.available == at) bars)

-- The clocks at which a rule is asked.
unfoldable pub in_window : Strategy → ℕ → Bool
in_window gap_fade at =
    leb (clock 9 45) (time_of at)
    && (ltb (time_of at) (clock 11 31) && time_of at / minute % 5 == 0)
in_window rebound at = time_of at / minute == 15 * 60 + 10

-- `change <= -0.0075`
abbrev pub has_fallen : ℕ → ℕ → Bool
has_fallen opening current = leb (current * 10000) (opening * 9925)

abbrev pub rebound_verdict : ℕ → ℕ → ℕ → Verdict
rebound_verdict opening current exit_at =
    let falls = has_fallen opening current in
    record {
      state = if falls then signal else no_signal;
      reason = if falls then "SELLOFF_THRESHOLD_MET" else "SELLOFF_BELOW_THRESHOLD";
      side = if falls then some ce else none;
      spot = some current;
      minimum_expiry = some (day_of exit_at + 1);
      exit_at = some exit_at;
    }

-- The exit is at ten past three of the next session, if that lies in it.
unfoldable pub rebound_rule : Calendar → ℕ → ℕ → Verdict
rebound_rule c opening current =
    let exit_at = combine (day_of c.next_opens) (clock 15 10) in
    if ltb c.next_opens exit_at && ltb exit_at c.next_closes
    then rebound_verdict opening current exit_at
    else plain unknown "NEXT_SESSION_EXIT_UNAVAILABLE"

abbrev pub distance : ℕ → ℕ → ℕ
distance a b = if leb a b then b - a else a - b

-- `abs(gap) >= 0.005`
abbrev pub is_wide : ℕ → ℕ → Bool
is_wide opening previous = leb previous (200 * distance opening previous)

-- `0.25 <= fraction <= 1` of the way from the opening back to the previous close.
abbrev pub is_part : ℕ → ℕ → Bool
is_part way gone = leb way (4 * gone) && leb gone way

abbrev pub is_filling : ℕ → ℕ → ℕ → Bool
is_filling opening previous current =
    if ltb previous opening
    then leb current opening && is_part (opening - previous) (opening - current)
    else ltb opening previous
      && (leb opening current && is_part (previous - opening) (current - opening))

-- A move against the gap: down after a gap up, up otherwise.
abbrev pub moves : Bool → ℕ → ℕ → Bool
moves gap_up before now = if gap_up then ltb now before else ltb before now

unfoldable pub gap_confirmed : ℕ → ℕ → ℕ → ℕ → ℕ → ℕ → ℕ → Bool
gap_confirmed opening previous current before last future_before future_now =
    let up = ltb previous opening in
    is_wide opening previous
    && (is_filling opening previous current
        && (moves up future_before future_now && (moves up before last && moves up last current)))

abbrev pub gap_verdict : Bool → Bool → ℕ → ℕ → ℕ → Verdict
gap_verdict confirmed gap_up current today closes = record {
  state = if confirmed then signal else no_signal;
  reason = if confirmed then "GAP_FADE_CONFIRMED" else "GAP_FADE_CONDITIONS_NOT_MET";
  side = if confirmed then some (if gap_up then pe else ce) else none;
  spot = some current;
  minimum_expiry = some today;
  exit_at = some (closes - 6 * minute);
}

abbrev pub previous_close : Option ℕ → ℕ → ℕ
previous_close none closes = closes
previous_close (some spot_closes) closes = spot_closes

unfoldable pub gap_rule : Calendar → ℕ → ℕ → ℕ → ℕ → ℕ → List Bar → List Bar → Result Verdict
gap_rule c closes now at opening current spot future = do
  close ← bar_at (previous_close c.previous_spot_closes c.previous_closes) spot
  raise_if (close.close == 0) "nonpositive previous close"
  two_ago ← bar_at (at - 2 * minute) spot
  one_ago ← bar_at (at - minute) spot
  future_now ← bar_at at future
  future_before ← bar_at (at - 5 * minute) future
  raise_if (future_before.close == 0) "division by zero"
  let confirmed =
      gap_confirmed opening close.close current two_ago.close one_ago.close future_before.close
        future_now.close
  ok (gap_verdict confirmed (ltb close.close opening) current (day_of now) closes)

abbrev pub by_strategy :
    Strategy → Calendar → ℕ → ℕ → ℕ → ℕ → ℕ → List Bar → List Bar → Result Verdict
by_strategy rebound c closes now at opening current spot future =
    ok (rebound_rule c opening current)
by_strategy gap_fade c closes now at opening current spot future =
    gap_rule c closes now at opening current spot future

abbrev pub is_empty {ℓ} : {A : Type ℓ} → List A → Bool
is_empty [] = true
is_empty (x ∷ xs) = false

-- The `try` of the rules, and its handler.
unfoldable pub apply_rule :
    Strategy → Calendar → ℕ → ℕ → ℕ → ℕ → List Bar → List Bar → Result Verdict
unfolding rebound_rule gap_rule
apply_rule s c opens closes now at spot future = do
  opening ← bar_at (opens + minute) spot
  current ← bar_at at spot
  raise_if (opening.opening == 0 || current.close == 0) "nonpositive index reference"
  by_strategy s c closes now at opening.opening current.close spot future

abbrev pub handled : Result Verdict → Verdict
handled (ok v) = v
handled (err e) = plain unknown "COMPLETED_INPUT_MISSING_OR_INVALID"

abbrev pub in_session : Strategy → Calendar → ℕ → ℕ → List Bar → List Bar → Option (ℕ × ℕ) → Verdict
in_session s c now at spot future none = plain waiting "EXCHANGE_CLOSED"
in_session s c now at spot future (some (opens, closes)) =
    if not (time_of opens == clock 9 15)
    then plain not_applicable "SPECIAL_SESSION_OUTSIDE_RESEARCH_SCOPE"
    else handled (apply_rule s c opens closes now at spot future)

abbrev pub with_calendar :
    Strategy → ℕ → ℕ → List Bar → List Bar → List ℕ → Option Calendar → Verdict
with_calendar s now at spot future expiries none = plain unknown "CALENDAR_UNAVAILABLE"
with_calendar s now at spot future expiries (some c) =
    if not (fresh c now)
    then plain unknown "CALENDAR_UNAVAILABLE"
    else if not (is_open c now)
    then plain waiting "EXCHANGE_CLOSED"
    else if is_empty expiries
    then plain unknown "CONTRACT_CALENDAR_UNAVAILABLE"
    else if is_gap s && contains_day expiries (day_of now)
    then plain not_applicable "EXPIRY_SESSION_OUTSIDE_RESEARCH_SCOPE"
    else if not (in_window s at)
    then plain waiting "OUTSIDE_STRATEGY_WINDOW"
    else in_session s c now at spot future c.session

-- `bar_at` is the time of the bar, `now` where the caller gives none.
unfoldable pub evaluate :
    Strategy → ℕ → Option Calendar → List Bar → List Bar → List ℕ → ℕ → Evaluation
unfolding in_window apply_rule
evaluate s now calendar spot future expiries bar_time =
    let at = minute_start bar_time in
    record {
      strategy = s;
      evaluated_at = at;
      verdict =
          if leb at now && leb (now - at) (90 * 1000000)
          then with_calendar s now at spot future expiries calendar
          else plain unknown "STRATEGY_INPUTS_STALE";
      next_check_at = next_check s now calendar expiries;
    }
