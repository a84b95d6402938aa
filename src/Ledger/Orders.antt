-- ===== src/Ledger/Orders.antt =====
-- Broker evidence and the small tables: `record_order`, `record_fill_once`, `record_order_charges`,
-- `freeze_reference`, `set_counter`, `counter`, `put_metadata`, `metadata`, `observe` and
-- `put_mandate`'s key of dhan_cas_bot/ledger.py.
use dhan_bot.Prelude.{
  ℕ, ◌+◌, String, str_eq, ◌==◌, Bool, true, false, Option, none, some, List, [], ◌∷◌, ◌++◌, not,
  ◌&&◌, ◌||◌, ltb, find, select, Result, ok, raise_if, ◌>>=◌, ◌>>◌, if◌then◌else◌,
}
use dhan_bot.Domain.{Fill}
use dhan_bot.Ledger.Tables.{
  TradeKey, joined, bare, OrderState, BrokerOrder, OrderRow, FillRow, ChargeRow, IntentRow, Db,
  same_key, is_terminal, same_state, same_order, find_intent, find_order, find_fill,
  filled_quantity,
}
use dhan_bot.Ledger.Intents.{reopen_recovery_closed}

-- `INSERT OR REPLACE INTO orders`
unfoldable pub put_order : OrderRow → List OrderRow → List OrderRow
put_order row rows =
    select (λ (r : OrderRow). not (str_eq r.order_id row.order_id)) rows ++ row ∷ []

-- A stored order of this identity that belongs to another intent or account.
abbrev pub order_conflict : Option OrderRow → String → String → Bool
order_conflict none intent_id account = false
order_conflict (some o) intent_id account =
    not (str_eq o.intent_id intent_id) || not (str_eq o.broker_account account)

-- A stored order that is terminal where the report is not, or that already says the same.
abbrev pub order_stale : Option OrderRow → OrderState → BrokerOrder → Bool
order_stale none state payload = false
order_stale (some o) state payload =
    is_terminal o.state && not (is_terminal state)
    || same_state o.state state && same_order o.payload payload

unfoldable pub record_order : String → String → String → OrderState → BrokerOrder → Db → Result Db
record_order order_id intent_id account state payload db =
    let old = find_order order_id db.orders in
    let row : OrderRow = record {
      order_id = order_id;
      intent_id = intent_id;
      broker_account = account;
      state = state;
      payload = payload;
    } in
    do
      raise_if (order_conflict old intent_id account) "order identity conflict"
      ok (
          if order_stale old state payload
          then db
          else reopen_recovery_closed intent_id "LATE_BROKER_ORDER"
              (record db { orders = put_order row db.orders }))

-- `UPDATE fills SET trade_id=? WHERE trade_id=?`
unfoldable pub rename_fill : TradeKey → TradeKey → List FillRow → List FillRow
rename_fill old new [] = []
rename_fill old new (f ∷ fs) =
    (if same_key f.trade_id old then record f { trade_id = new } else f) ∷ rename_fill old new fs

-- `UPDATE fills SET fees=? WHERE trade_id=?`
unfoldable pub put_fees : TradeKey → ℕ → List FillRow → List FillRow
put_fees key fees [] = []
put_fees key fees (f ∷ fs) =
    (if same_key f.trade_id key then record f { fees = fees } else f) ∷ put_fees key fees fs

-- The row of the bare format, which is a fill of the same order.
unfoldable pub find_legacy : Fill → List FillRow → Option FillRow
find_legacy x rows =
    find (λ (r : FillRow). same_key r.trade_id (bare x.trade_id) && str_eq r.order_id x.order_id)
      rows

abbrev pub key_of : Fill → TradeKey
key_of x = joined x.order_id x.trade_id

abbrev pub same_fill : FillRow → Fill → Bool
same_fill f x =
    str_eq f.order_id x.order_id
    && str_eq f.security_id x.security_id
    && f.quantity == x.quantity
    && f.price == x.price

-- The branch for a fill that is already stored, over the table as it stands after a rename.
unfoldable pub repeat_fill : Fill → FillRow → List FillRow → Result (List FillRow)
repeat_fill x old rows = do
  raise_if (not (same_fill old x)) "conflicting duplicate fill"
  ok (if ltb old.fees x.fees then put_fees (key_of x) x.fees rows else rows)

-- The intent must exist, be of the same security and have room for the quantity.
abbrev pub fill_refused : Fill → Option IntentRow → ℕ → Bool
fill_refused x none already = true
fill_refused x (some r) already =
    not (str_eq x.security_id r.security_id) || ltb r.quantity (already + x.quantity)

abbrev pub fill_row : Fill → String → FillRow
fill_row x intent_id = record {
  trade_id = key_of x;
  order_id = x.order_id;
  intent_id = intent_id;
  security_id = x.security_id;
  quantity = x.quantity;
  price = x.price;
  fees = x.fees;
  occurred_at = x.occurred_at;
}

unfoldable pub new_fill : Fill → String → Db → Result (Bool × Db)
new_fill x intent_id db = do
  raise_if (fill_refused x (find_intent intent_id db.intents) (filled_quantity intent_id db.fills))
      "fill exceeds or mismatches intent"
  let opened = reopen_recovery_closed intent_id "LATE_BROKER_FILL" db
  ok (true, record opened { fills = opened.fills ++ fill_row x intent_id ∷ [] })

abbrev pub keep_fills : Db → List FillRow → Bool × Db
keep_fills db rows = (false, record db { fills = rows })

abbrev pub legacy_fill : Fill → String → Option FillRow → Db → Result (Bool × Db)
legacy_fill x intent_id none db = new_fill x intent_id db
legacy_fill x intent_id (some old) db = do
  rows ← repeat_fill x old (rename_fill (bare x.trade_id) (key_of x) db.fills)
  ok (keep_fills db rows)

abbrev pub stored_fill : Fill → String → Option FillRow → Db → Result (Bool × Db)
stored_fill x intent_id none db = legacy_fill x intent_id (find_legacy x db.fills) db
stored_fill x intent_id (some old) db = do
  rows ← repeat_fill x old db.fills
  ok (keep_fills db rows)

-- `record_fill_once`: the result says whether the fill is new.
unfoldable pub record_fill_once : Fill → String → Db → Result (Bool × Db)
record_fill_once x intent_id db = stored_fill x intent_id (find_fill (key_of x) db.fills) db

unfoldable pub find_charge : String → List ChargeRow → Option ChargeRow
find_charge id rows = find (λ (r : ChargeRow). str_eq r.order_id id) rows

unfoldable pub put_charge : ChargeRow → List ChargeRow → List ChargeRow
put_charge row rows =
    select (λ (r : ChargeRow). not (str_eq r.order_id row.order_id)) rows ++ row ∷ []

abbrev pub owned_by : Option OrderRow → String → Bool
owned_by none id = false
owned_by (some o) id = str_eq o.intent_id id

abbrev pub charge_conflict : Option ChargeRow → String → Bool
charge_conflict none id = false
charge_conflict (some c) id = not (str_eq c.intent_id id)

-- The stored charge is higher, or as high and already complete, or as high as an incomplete one.
abbrev pub charge_stale : Option ChargeRow → ℕ → Bool → Bool
charge_stale none fees complete = false
charge_stale (some c) fees complete =
    ltb fees c.fees || fees == c.fees && (c.complete || not complete)

unfoldable pub record_order_charges : ℕ → String → String → ℕ → Bool → Db → Result Db
record_order_charges now order_id intent_id fees complete db =
    let old = find_charge order_id db.charges in
    let row : ChargeRow = record {
      order_id = order_id;
      intent_id = intent_id;
      fees = fees;
      complete = complete;
      observed_at = now;
    } in
    do
      raise_if
          (not (owned_by (find_order order_id db.orders) intent_id)
            || charge_conflict old intent_id)
          "historical charge identity conflict"
      ok (
          if charge_stale old fees complete
          then db
          else record db { charges = put_charge row db.charges })
