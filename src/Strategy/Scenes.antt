-- ===== src/Strategy/Scenes.antt =====
-- A move above a reference, a book that lags it, and a session close, on which the searches of
-- dhan_cas_bot/strategy.py run.
use dhan_bot.Prelude.{◌+◌, ◌*◌, [], ◌∷◌, pos, none, ℕ, List, true}
use dhan_bot.Domain.{CasStatus, cts_close, IndexObservation}
use dhan_bot.Risk.{Allocation, start}
use dhan_bot.Strategy.{raw}
use dhan_bot.Strategy.Search.{Observed}
use dhan_bot.Settlement.Final.{FinalValue}

abbrev pub thousand : Allocation
thousand = start (pos 400000000) (pos 400000000) 0 0 none

abbrev pub rise : List Observed
rise = (252900000, raw "a") ∷ (253000000, raw "b") ∷ []

abbrev pub close_at : CasStatus
close_at = record {
  phase = cts_close;
  updated_time_ms = 60000;
  trading_date = 739541;
  status_epoch = "e";
}

abbrev pub tick_of : ℕ → ℕ → IndexObservation
tick_of v n = record {
  value = v;
  provider_ts_ms = 50000 + n;
  received_ns = (50000 + n) * 1000000;
  epoch = "e";
  receiver_seq = n;
  frame_kind = "live_feed";
  raw_identity = "";
  wrapper_present = true;
}

abbrev pub before_close : List IndexObservation
before_close = tick_of 250 1 ∷ tick_of 240 2 ∷ tick_of 270 3 ∷ tick_of 260 4 ∷ tick_of 250 5 ∷ []

abbrev pub official : FinalValue
official = record {
  trading_date = 739541;
  value = 253000000;
  source = "NSE";
  source_field = "closing_index_value";
  published_at = record { time = 10; has_zone = true };
  received_at = record { time = 12; has_zone = true };
  revision = "1";
  settlement_regime = "CASH";
  finality_kind = "FINAL";
}
