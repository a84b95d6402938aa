-- ===== src/Engine/Tests.antt =====
-- Runs of the callbacks of dhan_cas_bot/engine.py, and the theorems at concrete inputs.
use dhan_bot.Runtime.{permit_entry}
use dhan_bot.Exits.{observe}
use dhan_bot.Domain.{top_bid, top_ask, Mandate}
use dhan_bot.Engine.Runs.{session-IsTracked}
use dhan_bot.Samples.{depth_book}
use dhan_bot.Ledger.{put_metadata, upsert, metadata, lookup, empty_db, freeze_reference, insert_new}
use dhan_bot.Strategy.Scenes.{before_close, close_at, tick_of}
use dhan_bot.Engine.Scenes.{
  plain, published, stopped, rising, stopped_at, twice, the_reference, ready, closed, with_book,
  opened, once, observed, moved, fed, at_close, quoted,
}
use dhan_bot.Settlement.Final.{validate}
use dhan_bot.Engine.State.{Session, active}
use dhan_bot.Strategy.{
  Reference, select_reference, last_five, by_identity, put_observation, is_eligible, intrinsic,
}
use dhan_bot.Engine.Tracked.{OfSession}
use dhan_bot.Engine.Finality.{on_final, check_final, is_revision}
use dhan_bot.Engine.Order.{NoOlder, callback-NoOlder, on_status-freezes}
use dhan_bot.Engine.Signals.{
  on_status, on_iep, on_book, accept, extend_streaks, lags, seen_before, drop_streak, streak_of,
  on_ltp,
}
use dhan_bot.Prelude.{
  zero, suc, [], ◌∷◌, refl, some, ◌≡◌, ok, false, true, text_append, sort_by, insert_by, List,
  String, Option, Bool, length, ℕ, ◌+◌,
}
use dhan_bot.Engine.Reached.{ltp, Reaches, book, iep, same, next, status, session-keeps_reference}
use dhan_bot.Engine.Settled.{InTime, on_final-InTime}

close_run : on_status plain close_at 0 observed ≡ (ok tt, closed)
unfolding on_status select_reference last_five by_identity put_observation is_eligible sort_by
    insert_by freeze_reference lookup insert_new
close_run = refl

on_status-freezes_example :
    (r : Reference) × (select_reference before_close close_at 0 ≡ ok r)
    × (closed.reference ≡ some r)
    × (lookup "2025-10-14" closed.db.references ≡ some (plain.of_reference r))
on_status-freezes_example = on_status-freezes plain close_at 0 observed closed refl refl close_run

-- Two values make a streak of two.
streak_run : length (streak_of "45001" twice.streaks) ≡ 2
unfolding on_iep on_book accept extend_streaks lags intrinsic top_bid top_ask lookup upsert
    seen_before observe insert_new drop_streak
streak_run = refl

ltps : (n : ℕ) → Reaches plain opened (fed n)
ltps zero = same opened
ltps (suc n) = next (ltps n) (ltp (tick_of (240 + n) (suc n)) (fed n))

moved_run : length (streak_of "45001" moved.streaks) ≡ 1
unfolding on_iep on_book accept extend_streaks lags intrinsic top_bid top_ask lookup upsert
    seen_before observe insert_new drop_streak on_ltp on_status select_reference last_five
    by_identity put_observation is_eligible sort_by insert_by freeze_reference
moved_run = refl

session-IsTracked_example : OfSession moved
session-IsTracked_example = session-IsTracked plain 739541 [] ready empty_db (
    next (next (next (ltps 5) (status close_at 0 (fed 5))) (book depth_book at_close))
      (iep (rising 1) quoted))

session-keeps_reference_example : twice.reference ≡ some the_reference
session-keeps_reference_example =
    session-keeps_reference plain the_reference
      (next (next (next (same closed) (book depth_book closed)) (iep (rising 1) with_book))
        (iep (rising 2) once))
      refl

callback-NoOlder_example : NoOlder plain close_at closed (on_status plain stopped_at 0 closed).1
callback-NoOlder_example = callback-NoOlder plain close_at (status stopped_at 0 closed) refl

abbrev settled : Session
settled = record stopped {
  final_value = some published;
  exit_reason = "FINAL_VALUE_REVISED";
  runtime = record ready { is_armed = false; final_verified = true };
  db = record stopped.db { metadata = ("disarmed", "true") ∷ ("final:2025-10-14", "1") ∷ [] };
}

final_run : on_final plain 4000 published stopped ≡ ok settled
unfolding on_final check_final validate active put_metadata upsert
final_run = refl

on_final-InTime_example :
    (validate published ≡ ok tt)
    × InTime plain 4000 published stopped
    × (settled.final_value ≡ some published)
    × (metadata (text_append "final:" (plain.of_day 739541)) settled.db
        ≡ some (plain.of_final published))
    × (is_revision stopped.final_value published ≡ true
        → (settled.exit_reason ≡ "FINAL_VALUE_REVISED")
          × (settled.runtime.is_armed ≡ false)
          × ((known enabled : List String) (fresh : Option Bool) (m : Mandate) (adds : Bool)
                (strategy : String)
              → permit_entry known enabled fresh m adds strategy settled.runtime settled.db
                ≡ false))
on_final-InTime_example = on_final-InTime plain 4000 published stopped settled final_run
