-- ===== src/Runtime/Tests.antt =====
-- A halt of dhan_cas_bot/runtime.py and what permits an entry, at concrete inputs.
use dhan_bot.Runtime.Permission.{disarm-halts, ArmsByAuthority}
use dhan_bot.Ledger.{metadata, empty_db, lookup}
use dhan_bot.Domain.{Mandate, none_scope}
use dhan_bot.Runtime.Status.{Runtime, permit_entry, disarm_new_entries, armed_waiting_signal, arm}
use dhan_bot.Prelude.{[], ◌∷◌, pos, none, true, false, refl, List, String, ◌≡◌}

abbrev live : Mandate
live = record {
  account_id = "acct";
  strategy_id = "CAS_LAG_V1";
  allocated_capital = pos 400000000;
  cumulative_entry_debit_cap = none;
  debit_cap_scope = none_scope;
  reinvest_realized_profit = true;
  equity_ceiling = none;
  probe_max_attempts_per_session = pos 1;
  probe_entry_debit_cap_per_session = pos 1;
  probe_spending_cap_per_mandate = pos 1;
  live_order_authority = true;
}

abbrev ready : Runtime
ready = record {
  software_verified = true;
  account_funded = true;
  route_verified = true;
  signal_seen = true;
  final_verified = false;
  is_armed = true;
  state = armed_waiting_signal;
  reason = "";
}

abbrev names : List String
names = "CAS_LAG_V1" ∷ []

permit_run : permit_entry names names none live false "CAS_LAG_V1" ready empty_db ≡ true
unfolding permit_entry metadata lookup
permit_run = refl

disarm-halts_example :
    let (halted, kept) = disarm_new_entries ready empty_db in
    (permit_entry names names none live false "CAS_LAG_V1" halted kept ≡ false)
    × (permit_entry names names none live false "CAS_LAG_V1" ready kept ≡ false)
    × ArmsByAuthority true (arm live ready kept)
disarm-halts_example = disarm-halts names names none live false "CAS_LAG_V1" ready ready empty_db
