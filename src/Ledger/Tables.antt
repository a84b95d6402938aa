-- ===== src/Ledger/Tables.antt =====
-- The tables of `SCHEMA` in dhan_cas_bot/ledger.py that the code reads, and the SQL statements that
-- its methods share. A column that is written and never read is left out; `payload` of an order
-- is the broker's order, which `reconcile` reads back.
use dhan_bot.Prelude.{
  ℕ, String, str_eq, ◌==◌, Bool, true, false, Option, none, some, List, [], ◌∷◌, ℤ, ◌&&◌, find,
  if◌then◌else◌, ◌+◌,
}
use dhan_bot.Domain.{Side}

pub data IntentState : Type 0 where
  pending_send send_unknown sent filled cancelled rejected expired aborted traded : IntentState
  recovery_closed : IntentState

-- A state of an order; `working` is any string that is not in `TERMINAL`.
pub data OrderState : Type 0 where
  traded cancelled rejected expired : OrderState
  working : String → OrderState

pub data AttemptState : Type 0 where
  started unknown accepted : AttemptState

pub record IntentRow : Type 0 where
  pub intent_id : String
  pub client_order_id : String
  pub lifecycle_id : String
  pub side : Side
  pub security_id : String
  pub quantity : ℕ
  pub price : ℕ
  pub state : IntentState
  pub reserved_cash : ℕ
  pub created_at : ℕ

pub record AttemptRow : Type 0 where
  pub attempt_id : String
  pub intent_id : String
  pub sent_at : ℕ
  pub response_state : AttemptState

-- An order as the broker reports it; a key that may be missing is an option, and the keys that nothing
-- reads are one text.
pub record BrokerOrder : Type 0 where
  pub order_id : String
  pub correlation_id : Option String
  pub client_id : Option String
  pub security_id : Option String
  pub transaction_type : Option String
  pub exchange_segment : Option String
  pub product_type : Option String
  pub status : OrderState
  pub filled_quantity : Option ℕ
  pub other_keys : String

pub record OrderRow : Type 0 where
  pub order_id : String
  pub intent_id : String
  pub broker_account : String
  pub state : OrderState
  pub payload : BrokerOrder

-- The primary key of a fill: the JSON list of the order and the trade, or the bare trade of the
-- format before it.
pub data TradeKey : Type 0 where
  joined : String → String → TradeKey
  bare : String → TradeKey

pub record FillRow : Type 0 where
  pub trade_id : TradeKey
  pub order_id : String
  pub intent_id : String
  pub security_id : String
  pub quantity : ℕ
  pub price : ℕ
  pub fees : ℕ
  pub occurred_at : ℕ

pub record ChargeRow : Type 0 where
  pub order_id : String
  pub intent_id : String
  pub fees : ℕ
  pub complete : Bool
  pub observed_at : ℕ

pub record LifecycleRow : Type 0 where
  pub lifecycle_id : String
  pub session_id : String
  pub security_id : String
  pub bankroll : ℤ
  pub is_closed : Bool

pub record SettlementRow : Type 0 where
  pub receipt_id : String
  pub lifecycle_id : String
  pub quantity : ℕ
  pub net_credit : ℤ

pub record IncidentRow : Type 0 where
  pub incident_id : String
  pub kind : String

-- `occurred_at` in microseconds.
pub record RateRow : Type 0 where
  pub event_id : String
  pub occurred_at : ℕ
  pub kind : Side

pub record Db : Type 0 where
  pub references : List (String × String)
  pub intents : List IntentRow
  pub attempts : List AttemptRow
  pub orders : List OrderRow
  pub fills : List FillRow
  pub charges : List ChargeRow
  pub counters : List (String × ℤ)
  pub incidents : List IncidentRow
  pub lifecycles : List LifecycleRow
  pub rate_events : List RateRow
  pub settlements : List SettlementRow
  pub metadata : List (String × String)
  pub observations : List (String × String)

abbrev pub empty_db : Db
empty_db = record {
  references = [];
  intents = [];
  attempts = [];
  orders = [];
  fills = [];
  charges = [];
  counters = [];
  incidents = [];
  lifecycles = [];
  rate_events = [];
  settlements = [];
  metadata = [];
  observations = [];
}

abbrev pub same_key : TradeKey → TradeKey → Bool
same_key (joined a b) (joined c d) = str_eq a c && str_eq b d
same_key (bare a) (bare b) = str_eq a b
same_key _ _ = false

abbrev pub is_terminal : OrderState → Bool
is_terminal (working s) = false
is_terminal _ = true

abbrev pub same_state : OrderState → OrderState → Bool
same_state traded traded = true
same_state cancelled cancelled = true
same_state rejected rejected = true
same_state expired expired = true
same_state (working a) (working b) = str_eq a b
same_state _ _ = false

abbrev pub same_text : Option String → Option String → Bool
same_text none none = true
same_text (some a) (some b) = str_eq a b
same_text _ _ = false

abbrev pub same_count : Option ℕ → Option ℕ → Bool
same_count none none = true
same_count (some a) (some b) = a == b
same_count _ _ = false

unfoldable pub same_order : BrokerOrder → BrokerOrder → Bool
same_order a b =
    str_eq a.order_id b.order_id
    && same_text a.correlation_id b.correlation_id
    && same_text a.client_id b.client_id
    && same_text a.security_id b.security_id
    && same_text a.transaction_type b.transaction_type
    && same_text a.exchange_segment b.exchange_segment
    && same_text a.product_type b.product_type
    && same_state a.status b.status
    && same_count a.filled_quantity b.filled_quantity
    && str_eq a.other_keys b.other_keys

-- `SELECT … FROM intents WHERE intent_id=?`
unfoldable pub find_intent : String → List IntentRow → Option IntentRow
find_intent id rows = find (λ (r : IntentRow). str_eq r.intent_id id) rows

unfoldable pub find_order : String → List OrderRow → Option OrderRow
find_order id rows = find (λ (r : OrderRow). str_eq r.order_id id) rows

unfoldable pub find_fill : TradeKey → List FillRow → Option FillRow
find_fill key rows = find (λ (r : FillRow). same_key r.trade_id key) rows

-- `SELECT COALESCE(SUM(quantity),0) FROM fills WHERE intent_id=?`
unfoldable pub filled_quantity : String → List FillRow → ℕ
filled_quantity id [] = 0
filled_quantity id (f ∷ fs) =
    (if str_eq f.intent_id id then f.quantity else 0) + filled_quantity id fs

-- `UPDATE intents SET state=? WHERE intent_id=?`
unfoldable pub put_state : String → IntentState → List IntentRow → List IntentRow
put_state id state [] = []
put_state id state (r ∷ rs) =
    (if str_eq r.intent_id id then record r { state = state } else r) ∷ put_state id state rs
