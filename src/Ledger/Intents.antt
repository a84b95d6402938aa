-- ===== src/Ledger/Intents.antt =====
-- Intents, attempts and reading back what is open: `create_intent`, `record_attempt`,
-- `set_intent_state`, `_reopen_recovery_closed`, `recovery_closed_valid` and `pending_intents` of
-- dhan_cas_bot/ledger.py.
use dhan_bot.Prelude.{
  ℕ, String, str_eq, ◌==◌, Bool, true, false, List, [], ◌∷◌, ◌++◌, not, ◌&&◌, ◌||◌, any, select,
  text_append, Result, ok, raise_if, ◌>>◌, if◌then◌else◌,
}
use dhan_bot.Domain.{Side, buy, sell, Intent}
use dhan_bot.Ledger.Tables.{
  IntentState, pending_send, send_unknown, sent, filled, cancelled, rejected, expired, aborted,
  recovery_closed, AttemptState, accepted, IntentRow, AttemptRow, OrderRow, FillRow, IncidentRow,
  Db, put_state,
}

abbrev pub is_buy : Side → Bool
is_buy buy = true
is_buy sell = false

abbrev pub new_row : Intent → ℕ → IntentRow
new_row x reserved = record {
  intent_id = x.intent_id;
  client_order_id = x.client_order_id;
  lifecycle_id = x.lifecycle_id;
  side = x.side;
  security_id = x.instrument.security_id;
  quantity = x.quantity;
  price = x.limit_price;
  state = pending_send;
  reserved_cash = reserved;
  created_at = x.created_at;
}

-- The primary key and the UNIQUE column make the INSERT raise on a repetition.
abbrev pub id_taken : Intent → List IntentRow → Bool
id_taken x rows =
    any
      (λ (r : IntentRow).
        str_eq r.intent_id x.intent_id || str_eq r.client_order_id x.client_order_id)
      rows

unfoldable pub create_intent : Intent → ℕ → Db → Result Db
create_intent x reserved db = do
  raise_if (is_buy x.side && reserved == 0) "buy reservation must be positive"
  raise_if (id_taken x db.intents) "UNIQUE constraint failed: intents"
  ok (record db { intents = db.intents ++ new_row x reserved ∷ [] })

abbrev pub put_attempt : AttemptRow → List AttemptRow → List AttemptRow
put_attempt a [] = a ∷ []
put_attempt a (r ∷ rs) =
    if str_eq r.attempt_id a.attempt_id
    then record r { response_state = a.response_state } ∷ rs
    else r ∷ put_attempt a rs

abbrev pub state_after_attempt : AttemptState → IntentState
state_after_attempt accepted = sent
state_after_attempt _ = send_unknown

-- `record_attempt` at the time `now`; a second record of an attempt keeps its `sent_at`.
unfoldable pub record_attempt : ℕ → String → String → AttemptState → Db → Db
record_attempt now attempt_id intent_id state db =
    let row : AttemptRow = record {
      attempt_id = attempt_id;
      intent_id = intent_id;
      sent_at = now;
      response_state = state;
    } in
    record db {
      attempts = put_attempt row db.attempts;
      intents = put_state intent_id (state_after_attempt state) db.intents;
    }

unfoldable pub set_intent_state : String → IntentState → Db → Db
set_intent_state id state db = record db { intents = put_state id state db.intents }

abbrev pub is_recovery_closed : IntentState → Bool
is_recovery_closed recovery_closed = true
is_recovery_closed _ = false

-- `INSERT OR REPLACE INTO incidents`
unfoldable pub put_incident : IncidentRow → List IncidentRow → List IncidentRow
put_incident row rows =
    select (λ (r : IncidentRow). not (str_eq r.incident_id row.incident_id)) rows ++ row ∷ []

-- `'route-reset:'+intent_id+phase`
abbrev pub reset_incident : String → String → String
reset_incident id phase = text_append "route-reset:" (text_append id phase)

abbrev pub is_reopened : String → IntentRow → Bool
is_reopened id r = str_eq r.intent_id id && is_recovery_closed r.state

abbrev pub reopen_rows : String → List IntentRow → List IntentRow
reopen_rows id [] = []
reopen_rows id (r ∷ rs) =
    (if is_reopened id r then record r { state = sent } else r) ∷ reopen_rows id rs

-- `_reopen_recovery_closed`: late evidence from the broker opens an intent again and records why.
unfoldable pub reopen_recovery_closed : String → String → Db → Db
reopen_recovery_closed id reason db =
    let row : IncidentRow = record { incident_id = reset_incident id ":reopened"; kind = reason } in
    if any (is_reopened id) db.intents
    then record db {
      intents = reopen_rows id db.intents;
      incidents = put_incident row db.incidents;
    }
    else db

-- The states that `pending_intents` leaves out.
abbrev pub is_settled : IntentState → Bool
is_settled filled = true
is_settled cancelled = true
is_settled rejected = true
is_settled expired = true
is_settled aborted = true
is_settled _ = false

-- `recovery_closed_valid`: a probe that the operator closed stays closed only with the broker's
-- receipt and without any order or fill.
unfoldable pub recovery_closed_valid : Db → IntentRow → Bool
recovery_closed_valid db r =
    is_recovery_closed r.state
    && str_eq r.lifecycle_id "route-probe"
    && is_buy r.side
    && any
        (λ (i : IncidentRow).
          str_eq i.incident_id (reset_incident r.intent_id ":complete")
          && str_eq i.kind "BROKER_ACCOUNT_RESET_CONFIRMED")
        db.incidents
    && not (any (λ (o : OrderRow). str_eq o.intent_id r.intent_id) db.orders)
    && not (any (λ (f : FillRow). str_eq f.intent_id r.intent_id) db.fills)

abbrev pub is_final : Db → IntentRow → Bool
is_final db r = is_settled r.state || recovery_closed_valid db r

-- `pending_intents`; the rows stand in the order of their creation.
unfoldable pub pending_intents : Db → List IntentRow
pending_intents db = select (λ r. not (is_final db r)) db.intents

-- `incident`
unfoldable pub incident : String → String → Db → Db
incident id kind db = record db {
  incidents = put_incident (record { incident_id = id; kind = kind }) db.incidents;
}
