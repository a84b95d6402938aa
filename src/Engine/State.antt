-- ===== src/Engine/State.antt =====
-- The state of `SessionEngine` in dhan_cas_bot/engine.py. The runtime and the ledger that the engine
-- shares with the order manager are fields of it.
use dhan_bot.Prelude.{
  ℕ, String, Bool, true, false, Option, none, some, List, [], ◌∷◌, Result, ok, err, if◌then◌else◌,
}
use dhan_bot.Domain.{CasStatus, IndexObservation, OptionBook}
use dhan_bot.Ledger.{Db, LifecycleRow}
use dhan_bot.Runtime.{Runtime}
use dhan_bot.Settlement.Final.{FinalValue}
use dhan_bot.Strategy.{Reference, Observed, Identity}

-- The JSON texts of what the ledger stores, and the texts of dates and identities.
pub record Codec : Type 0 where
  pub of_reference : Reference → String
  pub of_observation : IndexObservation → String
  pub of_final : FinalValue → String
  pub of_day : ℕ → String
  pub of_identity : Identity → String

-- `f"{book.epoch}:{security}:{book.received_ns}"`, by its parts
pub record BookId : Type 0 where
  pub epoch : String
  pub security : String
  pub received_ns : ℕ

-- Observations stand oldest first. The timestamp -1 of no signal is 0 here: both are compared only
-- in a maximum with another time. `depth_debits` is the ledger's table of that name, `revision` its
-- `account_revision`.
pub record Session : Type 0 where
  pub session_id : ℕ
  pub reference : Option Reference
  pub status : Option CasStatus
  pub observations : List Observed
  pub reference_observations : List IndexObservation
  pub streaks : List (String × List Observed)
  pub identities : List Identity
  pub signal_epoch : Option String
  pub market_epoch : Option String
  pub signal_connected : Bool
  pub market_connected : Bool
  pub exit_reason : String
  pub peak_intrinsic : ℕ
  pub peak_bid : ℕ
  pub final_value : Option FinalValue
  pub last_signal_timestamp : ℕ
  pub saved_signal_invalid : Bool
  pub books : List (String × OptionBook)
  pub depth_debits : List (BookId × ℕ)
  pub runtime : Runtime
  pub db : Db
  pub revision : ℕ

-- `SessionEngine.__init__` where nothing of the session was saved.
abbrev pub start_session : ℕ → List (String × OptionBook) → Runtime → Db → Session
start_session day books r db = record {
  session_id = day;
  reference = none;
  status = none;
  observations = [];
  reference_observations = [];
  streaks = [];
  identities = [];
  signal_epoch = none;
  market_epoch = none;
  signal_connected = true;
  market_connected = true;
  exit_reason = "";
  peak_intrinsic = 0;
  peak_bid = 0;
  final_value = none;
  last_signal_timestamp = 0;
  saved_signal_invalid = false;
  books = books;
  depth_debits = [];
  runtime = r;
  db = db;
  revision = 0;
}

abbrev pub open_rows : List LifecycleRow → List LifecycleRow
open_rows [] = []
open_rows (r ∷ rs) = if r.is_closed then open_rows rs else r ∷ open_rows rs

abbrev pub at_most_one : List LifecycleRow → Result (Option LifecycleRow)
at_most_one [] = ok none
at_most_one (r ∷ []) = ok (some r)
at_most_one (r ∷ s ∷ rs) = err "multiple unresolved lifecycles"

-- `active`
unfoldable pub active : Session → Result (Option LifecycleRow)
active e = at_most_one (open_rows e.db.lifecycles)
