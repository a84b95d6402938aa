-- ===== src/Engine/Finality.antt =====
-- `on_final` of dhan_cas_bot/engine.py. Times of stamps are microseconds, `now` is the clock's.
use dhan_bot.Ledger.{LifecycleRow, put_metadata}
use dhan_bot.Domain.{CasPhase, CasStatus}
use dhan_bot.Settlement.Final.{FinalValue, validate}
use dhan_bot.Engine.State.{Codec, Session, active}
use dhan_bot.Domain.{cas_stop}
use dhan_bot.Prelude.{
  ◌>>◌, ◌>>=◌, none, Bool, Option, ℕ, if◌then◌else◌, true, some, false, Result, ltb, str_eq, not,
  ◌==◌, ◌*◌, ◌&&◌, text_append, ok, raise_if, ◌||◌,
}

abbrev pub is_cas_stop : CasPhase → Bool
is_cas_stop cas_stop = true
is_cas_stop _ = false

-- `active and final.trading_date == active["session_id"] and final.trading_date < self.session_id`
abbrev pub is_historical : Codec → Session → Option LifecycleRow → FinalValue → Bool
is_historical c e none final = false
is_historical c e (some row) final =
    str_eq (c.of_day final.trading_date) row.session_id && ltb final.trading_date e.session_id

abbrev pub has_stopped : Option CasStatus → Bool
has_stopped none = false
has_stopped (some s) = is_cas_stop s.phase

abbrev pub precedes_stop : Option CasStatus → FinalValue → Bool
precedes_stop none final = false
precedes_stop (some s) final = ltb final.published_at.time (s.updated_time_ms * 1000)

-- The checks of the day and the times, for the position that is open.
abbrev pub check_day : Codec → ℕ → FinalValue → Session → Option LifecycleRow → Result (Unit {0})
check_day c now final e row = do
  let historical = is_historical c e row final
  raise_if (not (final.trading_date == e.session_id) && not historical)
      "final value is for another session"
  raise_if (not historical && not (has_stopped e.status))
      "final input cannot precede collection stop"
  raise_if (not historical && precedes_stop e.status final || ltb now final.received_at.time)
      "final input time is inconsistent with session"

-- The checks of `on_final`; nothing is changed before they pass.
unfoldable pub check_final : Codec → ℕ → FinalValue → Session → Result (Unit {0})
check_final c now final e = do validate final; row ← active e; check_day c now final e row

abbrev pub is_revision : Option FinalValue → FinalValue → Bool
is_revision none final = false
is_revision (some old) final = not (old.value == final.value)

abbrev pub halt_if : Bool → Session → Session
halt_if revised e =
    if revised
    then record e {
      runtime = record e.runtime { is_armed = false };
      exit_reason = "FINAL_VALUE_REVISED";
      db = put_metadata "disarmed" "true" e.db;
    }
    else e

abbrev pub keep_final : Codec → FinalValue → Session → Session
keep_final c final e = record e {
  final_value = some final;
  runtime = record e.runtime { final_verified = true };
  db = put_metadata (text_append "final:" (c.of_day final.trading_date)) (c.of_final final) e.db;
}

unfoldable pub on_final : Codec → ℕ → FinalValue → Session → Result Session
on_final c now final e = do
  check_final c now final e
  ok (keep_final c final (halt_if (is_revision e.final_value final) e))
