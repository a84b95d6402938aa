-- ===== src/Runtime/Status.antt =====
-- `RuntimeStatus` and `AutoLive` of dhan_cas_bot/runtime.py. The names of all strategies are an argument,
-- and so is whether the account data are fresh (none where nothing refreshes them).
use dhan_bot.Prelude.{
  String, str_eq, Bool, true, false, Option, none, some, List, any, not, ◌&&◌, ◌||◌, ltb_ℤ, pos,
  Result, ok, err, raise_if, ◌>>◌, if◌then◌else◌,
}
use dhan_bot.Domain.{Mandate, FundsSnapshot}
use dhan_bot.Ledger.{Db, put_metadata, metadata}

pub data RunState : Type 0 where
  disarmed armed_waiting_session armed_waiting_signal recovering entry_halted : RunState
  entry_pending position_open exit_pending settlement_pending : RunState

-- `profitability_status` is never read.
pub record Runtime : Type 0 where
  pub software_verified : Bool
  pub account_funded : Bool
  pub route_verified : Bool
  pub signal_seen : Bool
  pub final_verified : Bool
  pub is_armed : Bool
  pub state : RunState
  pub reason : String

-- `AutoLive.__init__`; `mandate.validate()` comes before it.
unfoldable pub start_runtime : Mandate → String → Bool → Result Runtime
start_runtime m broker_account software_verified = do
  raise_if (not (str_eq m.account_id broker_account)) "mandate and broker account differ"
  ok (record {
    software_verified = software_verified;
    account_funded = false;
    route_verified = false;
    signal_seen = false;
    final_verified = false;
    is_armed = m.live_order_authority;
    state = if m.live_order_authority then armed_waiting_session else disarmed;
    reason = "";
  })

abbrev pub is_funded : Mandate → FundsSnapshot → Bool
is_funded m f = ltb_ℤ (pos 0) f.spendable_cash && str_eq f.broker_account m.account_id

-- `refresh_account`, with the broker's answer; a failure is kept as the reason.
unfoldable pub refresh_account : Mandate → Result FundsSnapshot → Runtime → Runtime
refresh_account m (ok f) r = record r { account_funded = is_funded m f }
refresh_account m (err e) r = record r { account_funded = false; reason = e }

abbrev pub is_blocked : Bool → RunState → Bool
is_blocked adds_to_settlement disarmed = true
is_blocked adds_to_settlement recovering = true
is_blocked adds_to_settlement settlement_pending = not adds_to_settlement
is_blocked adds_to_settlement _ = false

abbrev pub is_fresh : Option Bool → Bool
is_fresh none = true
is_fresh (some fresh) = fresh

abbrev pub member : String → List String → Bool
member name names = any (λ (n : String). str_eq n name) names

abbrev pub signal_ready : String → Runtime → Bool
signal_ready strategy r = if str_eq strategy "CAS_LAG_V1" then r.signal_seen else true

-- `metadata("disarmed", False)`, whose JSON text is `true` or `false`
abbrev pub reads_true : Option String → Bool
reads_true none = false
reads_true (some text) = str_eq text "true"

-- `permit_entry`
unfoldable pub permit_entry :
    List String → List String → Option Bool → Mandate → Bool → String → Runtime → Db → Bool
permit_entry known enabled fresh m adds_to_settlement strategy r db =
    if not (member strategy enabled) || not (member strategy known)
    then false
    else if not (is_fresh fresh)
    then false
    else m.live_order_authority
      && ltb_ℤ (pos 0) m.allocated_capital
      && r.software_verified
      && r.account_funded
      && r.route_verified
      && signal_ready strategy r
      && r.is_armed
      && not (reads_true (metadata "disarmed" db))
      && not (is_blocked adds_to_settlement r.state)

-- `disarm_new_entries`
unfoldable pub disarm_new_entries : Runtime → Db → Runtime × Db
disarm_new_entries r db = (
  record r { is_armed = false; state = entry_halted; reason = "operator_disarmed_new_entries" },
  put_metadata "disarmed" "true" db,
)

-- `arm`
unfoldable pub arm : Mandate → Runtime → Db → Result (Runtime × Db)
arm m r db = do
  raise_if (not m.live_order_authority) "standing mandate does not authorize live writes"
  ok (
    record r { is_armed = true; state = armed_waiting_signal },
    put_metadata "disarmed" "false" db,
  )
