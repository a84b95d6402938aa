-- ===== src/Engine/Scenes.antt =====
-- A session of dhan_cas_bot/engine.py from its first observations to the final value.
use dhan_bot.Engine.Entry.{Rules, Moment}
use dhan_bot.Ledger.{empty_db}
use dhan_bot.Engine.Signals.{on_iep, on_book, on_ltp, on_status}
use dhan_bot.Strategy.{Reference, made_event}
use dhan_bot.Domain.{
  CasStatus, IndexObservation, cas_stop, Mandate, FundsSnapshot, cas_m_stop, mandate_scope,
}
use dhan_bot.Settlement.Final.{FinalValue}
use dhan_bot.Runtime.{Runtime, armed_waiting_signal}
use dhan_bot.Engine.State.{Codec, Session, start_session}
use dhan_bot.Prelude.{zero, suc, [], ◌∷◌, ℕ, if◌then◌else◌, true, some, ◌==◌, ◌+◌, false, none, pos}
use dhan_bot.Strategy.Scenes.{before_close, close_at, official, tick_of}
use dhan_bot.Samples.{depth_book}

-- Texts that keep what the tests look at.
abbrev pub plain : Codec
plain = record {
  of_reference = λ r. r.epoch;
  of_observation = λ x. x.epoch;
  of_final = λ f. f.revision;
  of_day = λ d. if d == 739541 then "2025-10-14" else "another day";
  of_identity = λ i. "identity";
}

abbrev pub ready : Runtime
ready = record {
  software_verified = true;
  account_funded = true;
  route_verified = true;
  signal_seen = true;
  final_verified = false;
  is_armed = true;
  state = armed_waiting_signal;
  reason = "";
}

abbrev pub opened : Session
opened = start_session 739541 [] ready empty_db

-- With five observations and without a status.
abbrev pub observed : Session
observed = record opened { reference_observations = before_close }

abbrev pub the_reference : Reference
the_reference = record {
  value = 250;
  boundary_ms = 60000;
  event_ids =
      made_event 50001 1
      ∷ made_event 50002 2
      ∷ made_event 50003 3
      ∷ made_event 50004 4
      ∷ made_event 50005 5
      ∷ [];
  epoch = "e";
}

-- The session once the close was seen.
abbrev pub closed : Session
closed = record observed {
  status = some close_at;
  signal_epoch = some "e";
  reference = some the_reference;
  db = record empty_db { references = ("2025-10-14", "e") ∷ [] };
}

-- An indicative value far above the reference.
abbrev pub rising : ℕ → IndexObservation
rising n = record (tick_of (252900000 + n) (20000 + n)) { raw_identity = "" }

-- After the close: a book that lags two indicative values.
abbrev pub with_book : Session
with_book = on_book depth_book closed

abbrev pub once : Session
once = on_iep plain (rising 1) with_book

abbrev pub twice : Session
twice = on_iep plain (rising 2) once

abbrev pub stopped_at : CasStatus
stopped_at = record close_at { phase = cas_stop; updated_time_ms = 1 }

abbrev pub stopped : Session
stopped = record closed {
  status = some stopped_at;
  final_value = some (record official { value = 1 });
}

abbrev pub published : FinalValue
published = record official {
  published_at = record { time = 2000; has_zone = true };
  received_at = record { time = 3000; has_zone = true };
}

-- The same session from its start, call by call.
abbrev pub fed : ℕ → Session
fed zero = opened
fed (suc n) = on_ltp (tick_of (240 + n) (suc n)) (fed n)

abbrev pub at_close : Session
at_close = (on_status plain close_at 0 (fed 5)).1

abbrev pub quoted : Session
quoted = on_book depth_book at_close

abbrev pub moved : Session
moved = on_iep plain (rising 1) quoted

abbrev pub mandate : Mandate
mandate = record {
  account_id = "acct";
  strategy_id = "CAS_LAG_V1";
  allocated_capital = pos 400000000;
  cumulative_entry_debit_cap = some (pos 90000000);
  debit_cap_scope = mandate_scope;
  reinvest_realized_profit = true;
  equity_ceiling = none;
  probe_max_attempts_per_session = pos 1;
  probe_entry_debit_cap_per_session = pos 1;
  probe_spending_cap_per_mandate = pos 1;
  live_order_authority = true;
}

abbrev pub rules : Rules
rules = record {
  known = "CAS_LAG_V1" ∷ [];
  enabled = "CAS_LAG_V1" ∷ [];
  fresh = none;
  mandate = mandate;
}

abbrev pub cash_at_broker : FundsSnapshot
cash_at_broker = record {
  spendable_cash = pos 300000000;
  strategy_equity = pos 300000000;
  withdrawable_cash = pos 300000000;
  collateral = pos 0;
  broker_account = "acct";
}

-- In the auction, a quarter past three and ten minutes.
abbrev pub collecting : Session
collecting = record closed { status = some (record close_at { phase = cas_m_stop }) }

abbrev pub half_past : Moment
half_past = record { day = 739541; time = 55500000000 }
