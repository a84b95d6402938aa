-- ===== src/Engine/Entry.antt =====
-- The first half of `_enter` in dhan_cas_bot/engine.py, up to the await of the funds, and what it
-- asks of the session. A moment is a day and the microseconds since its midnight in India.
use dhan_bot.Engine.Finality.{has_stopped}
use dhan_bot.Runtime.{permit_entry}
use dhan_bot.Orders.{Position}
use dhan_bot.Engine.Signals.{is_some}
use dhan_bot.Ledger.{LifecycleRow, pending_intents}
use dhan_bot.Engine.State.{Session}
use dhan_bot.Domain.{cas_lm_start, cas_m_stop, CasPhase, CasStatus, Mandate}
use dhan_bot.Prelude.{
  none, ℕ, Bool, List, Option, true, String, ◌&&◌, leb, ◌||◌, if◌then◌else◌, false, not, ltb, some,
  pos_part, length, ◌==◌, neg_part, any, str_eq,
}

pub record Moment : Type 0 where
  pub day : ℕ
  pub time : ℕ

-- What the runtime's permission reads besides its status and the ledger.
pub record Rules : Type 0 where
  pub known : List String
  pub enabled : List String
  pub fresh : Option Bool
  pub mandate : Mandate

-- `runtime.permit_entry(settlement_add=…)`
abbrev pub permitted : Rules → Bool → Session → Bool
permitted r adds e =
    permit_entry r.known r.enabled r.fresh r.mandate adds "CAS_LAG_V1" e.runtime e.db

abbrev pub is_auction : CasPhase → Bool
is_auction cas_lm_start = true
is_auction cas_m_stop = true
is_auction _ = false

abbrev pub in_auction : Option CasStatus → Bool
in_auction none = false
in_auction (some s) = is_auction s.phase

abbrev pub is_final_entry : Session → Bool
is_final_entry e = is_some e.final_value && has_stopped e.status

-- A position that the session does not manage.
abbrev pub is_foreign : Option LifecycleRow → Position → Bool
is_foreign none p = not (pos_part p.net_quantity == 0 && neg_part p.net_quantity == 0)
is_foreign (some row) p =
    not (pos_part p.net_quantity == 0 && neg_part p.net_quantity == 0)
    && not (str_eq p.security_id row.security_id)

-- From 15:20 to 15:30, or to 15:38:30 with a final value.
abbrev pub in_window : Bool → ℕ → Bool
in_window final time = leb 55200000000 time && ltb time (if final then 56310000000 else 55800000000)

abbrev pub is_of_day : Option CasStatus → ℕ → Bool
is_of_day none day = false
is_of_day (some s) day = s.trading_date == day

abbrev pub feed_ready : Moment → Session → Bool
feed_ready at e =
    e.market_connected
    && is_of_day e.status at.day
    && (is_final_entry e || e.signal_connected && in_auction e.status)

pub data Refusal : Type 0 where
  not_permitted unmanaged_position outside_window feed_not_ready inputs_changed no_candidate :
      Refusal

-- The early returns, in their order.
unfoldable pub entry_refusal :
    Rules → Bool → Bool → List Position → Option LifecycleRow → Moment → Session → Option Refusal
entry_refusal r adds unresolved positions row at e =
    if unresolved || not (length (pending_intents e.db) == 0) || not (permitted r adds e)
    then some not_permitted
    else if any (is_foreign row) positions
    then some unmanaged_position
    else if not (at.day == e.session_id) || not (in_window (is_final_entry e) at.time)
    then some outside_window
    else if not (feed_ready at e)
    then some feed_not_ready
    else none

-- What a refusal leaves in the runtime; the telemetry is left out.
unfoldable pub refused : Refusal → Session → Session
refused unmanaged_position e = record e {
  runtime = record e.runtime { reason = "UNMANAGED_ACCOUNT_POSITION" };
}
refused no_candidate e = record e {
  runtime = record e.runtime { reason = "NO_EXECUTABLE_LAG_OR_REMAINING_ALLOWANCE" };
}
refused _ e = e
