-- ===== src/Orders/Trades.antt =====
-- The broker's trades as `OrderManager` of dhan_cas_bot/orders.py reads them, and
-- `confirm_historical_order`.
use dhan_bot.Domain.{Side, buy, sell}
use dhan_bot.Ledger.{
  Db, IntentRow, BrokerOrder, OrderState, traded, FillRow, units, is_terminal, record_order_charges,
  turnover_of,
}
use dhan_bot.Prelude.{
  ℕ, String, Bool, true, false, not, any, Option, none, some, List, [], ◌∷◌, Result, ok, ◌>>=◌,
  ◌>>◌, str_eq, ◌||◌, raise_if, select, ◌+◌, if◌then◌else◌, max, ◌*◌, ◌&&◌, sum_of, ◌==◌, leb, all,
}

-- A trade of the day or of the history. `trade_id` is the exchange's or the broker's identity, the
-- first that is not empty; `components` are the six charges, and a key that may be missing is an option.
pub record Trade : Type 0 where
  pub order_id : String
  pub client_id : Option String
  pub security_id : Option String
  pub transaction_type : Option String
  pub exchange_segment : Option String
  pub product_type : Option String
  pub trade_id : String
  pub quantity : ℕ
  pub price : ℕ
  pub fees : Option ℕ
  pub components : List (Option ℕ)

abbrev pub side_text : Side → String
side_text buy = "BUY"
side_text sell = "SELL"

-- `key in row and str(row[key]) != expected`
abbrev pub mismatch : Option String → String → Bool
mismatch none expected = false
mismatch (some text) expected = not (str_eq text expected)

-- The five keys that must not contradict the intent and the account.
abbrev pub contradicts :
    String
    → IntentRow
    → Option String
    → Option String
    → Option String
    → Option String
    → Option String
    → Bool
contradicts account r client security side segment product =
    mismatch client account
    || mismatch security r.security_id
    || mismatch side (side_text r.side)
    || mismatch segment "NSE_FNO"
    || mismatch product "MARGIN"

abbrev pub foreign_order : String → IntentRow → BrokerOrder → Bool
foreign_order account r o =
    contradicts account r o.client_id o.security_id o.transaction_type o.exchange_segment
      o.product_type

abbrev pub foreign_trade : String → IntentRow → Trade → Bool
foreign_trade account r t =
    contradicts account r t.client_id t.security_id t.transaction_type t.exchange_segment
      t.product_type

abbrev pub given : Option ℕ → ℕ
given none = 0
given (some v) = v

abbrev pub is_given : Option ℕ → Bool
is_given none = false
is_given (some v) = true

abbrev pub trade_fees : Trade → ℕ
trade_fees t = max (given t.fees) (sum_of given t.components)

-- The quantity that the broker reports as filled, or what its state lets expect.
abbrev pub expected_quantity : Option ℕ → OrderState → ℕ → ℕ → ℕ
expected_quantity (some n) state whole known = n
expected_quantity none traded whole known = whole
expected_quantity none _ whole known = known

pub record History : Type 0 where
  pub quantity : ℕ
  pub turnover : ℕ
  pub fees : ℕ
  pub complete : Bool
  pub has_charges : Bool

abbrev pub no_history : History
no_history = record { quantity = 0; turnover = 0; fees = 0; complete = true; has_charges = false }

abbrev pub add_trade : History → Trade → History
add_trade h t = record {
  quantity = h.quantity + t.quantity;
  turnover = h.turnover + t.quantity * t.price;
  fees = h.fees + trade_fees t;
  complete = h.complete && (is_given t.fees || all is_given t.components);
  has_charges = h.has_charges || (is_given t.fees || any is_given t.components);
}

-- The loop over the records.
unfoldable pub add_history : String → IntentRow → History → List Trade → Result History
add_history account r h [] = ok h
add_history account r h (t ∷ ts) = do
  raise_if (foreign_trade account r t) "foreign or contradictory historical order"
  raise_if (leb t.quantity 0 || leb t.price 0) "invalid historical order economics"
  add_history account r (add_trade h t) ts

abbrev pub keep_charges : ℕ → IntentRow → String → History → Db → Result (Bool × Db)
keep_charges now r order_id h db =
    if h.has_charges
    then (record_order_charges now order_id r.intent_id h.fees h.complete db >>= λ db'.
        ok (true, db'))
    else ok (true, db)

abbrev pub known_fills : IntentRow → String → Db → List FillRow
known_fills r order_id db =
    select (λ (f : FillRow). str_eq f.order_id order_id && str_eq f.intent_id r.intent_id) db.fills

-- The receipts of a terminal order whose fills are complete here must repeat them.
unfoldable pub corroborate : ℕ → String → IntentRow → String → List Trade → Db → Result (Bool × Db)
corroborate now account r order_id records db = do
  let known = known_fills r order_id db
  h ← add_history account r no_history records
  raise_if (not (units known == h.quantity) || not (turnover_of known == h.turnover))
      "historical order does not match recorded execution"
  keep_charges now r order_id h db

abbrev pub is_empty {ℓ} : {A : Type ℓ} → List A → Bool
is_empty [] = true
is_empty (x ∷ xs) = false

unfoldable pub confirm_historical_order :
    ℕ → String → IntentRow → BrokerOrder → List Trade → Db → Result (Bool × Db)
confirm_historical_order now account r o records db =
    let quantity = units (known_fills r o.order_id db) in
    let expected = expected_quantity o.filled_quantity o.status r.quantity quantity in
    if is_empty records || not (is_terminal o.status)
    then ok (false, db)
    else if leb quantity 0 || not (quantity == expected)
    then ok (false, db)
    else corroborate now account r o.order_id records db
