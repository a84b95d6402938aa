-- ===== src/Intraday/Tests.antt =====
-- Tests of the rules of a session, and an instance of their theorem.
use dhan_bot.Prelude.{ℕ, ◌<◌, ◌≡◌, refl, none, some, [], ◌∷◌, List}
use dhan_bot.Intraday.Calendars.{
  Calendar, gap_fade, rebound, clock, combine, next_check, fresh, is_open,
}
use dhan_bot.Intraday.Bars.{Bar}
use dhan_bot.Intraday.Rules.{State, signal, Evaluation, evaluate, handled, apply_rule}
use dhan_bot.Intraday.Windows.{next_check-Applies}

-- Day 100 from a quarter past nine to half past three, and day 101 after it.
abbrev week : Calendar
week = record {
  session = some (combine 100 (clock 9 15), combine 100 (clock 15 30));
  previous_closes = combine 99 (clock 15 30);
  next_opens = combine 101 (clock 9 15);
  next_closes = combine 101 (clock 15 30);
  checked_at = combine 100 (clock 9 0);
  day = none;
  previous_spot_closes = none;
}

abbrev bar : ℕ → ℕ → ℕ → Bar
bar at opening close = record {
  available = at;
  opening = opening;
  close = close;
  volume = 0;
  oi = 0;
  high = opening;
  low = close;
}

-- The index falls by one per cent from the open until ten past three: a rebound is bought.
abbrev fallen : List Bar
fallen =
    bar (combine 100 (clock 9 16)) 250000000 249900000
    ∷ bar (combine 100 (clock 15 10)) 247500000 247500000
    ∷ []

abbrev verdict_state : Evaluation → State
verdict_state e = e.verdict.state

evaluate_rebound :
    verdict_state (
      evaluate rebound
        (combine 100 (clock 15 10))
        (some week)
        fallen
        []
        (105 ∷ [])
        (combine 100 (clock 15 10)))
    ≡ signal
unfolding evaluate fresh next_check is_open
evaluate_rebound = refl

-- After a quarter to ten the next check of the gap is at ten to ten.
next_check_gap :
    next_check gap_fade (combine 100 (clock 9 47)) (some week) (105 ∷ [])
    ≡ some (combine 100 (clock 9 50))
unfolding next_check
next_check_gap = refl

-- The calendar as it is read again shortly before that check.
abbrev read_again : Calendar
read_again = record week { checked_at = combine 100 (clock 9 49) }

next_check-Applies_example :
    let now = combine 100 (clock 9 47) in
    let t = combine 100 (clock 9 50) in
    let opens = combine 100 (clock 9 15) in
    let closes = combine 100 (clock 15 30) in
    (now < t)
    × (opens < t)
    × (t < closes)
    × ((evaluate gap_fade t (some read_again) fallen [] (105 ∷ []) t).verdict
        ≡ handled (apply_rule gap_fade read_again opens closes t t fallen []))
unfolding fresh next_check
next_check-Applies_example =
    next_check-Applies gap_fade (combine 100 (clock 9 47)) week (105 ∷ [])
      (combine 100 (clock 9 50)) (combine 100 (clock 9 15)) (combine 100 (clock 15 30)) read_again
      fallen [] next_check_gap refl refl refl refl
