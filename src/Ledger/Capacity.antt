-- ===== src/Ledger/Capacity.antt =====
-- No intent is filled beyond its quantity, whatever the history of the ledger.
use dhan_bot.Prelude.{
  ℕ, ◌+◌, ◌≤◌, ◌≡◌, refl, arith, String, str_eq, Bool, some, List, [], ◌∷◌, ◌++◌, if◌then◌else◌, ok,
  err, eq_iff, Result, ◌>>=◌,
}
use dhan_bot.Domain.{Fill, Intent}
use dhan_bot.Ledger.Tables.{
  IntentState, IntentRow, FillRow, TradeKey, Db, find_intent, filled_quantity, put_state,
  OrderState, BrokerOrder, OrderRow, bare, empty_db,
}
use dhan_bot.Ledger.Intents.{
  create_intent, record_attempt, set_intent_state, reopen_rows, reopen_recovery_closed, incident,
  new_row, state_after_attempt,
}
use dhan_bot.Ledger.Orders.{
  record_order, rename_fill, put_fees, repeat_fill, new_fill, record_fill_once,
  record_order_charges, key_of, fill_row, put_order,
}
use dhan_bot.Ledger.Keyed.{freeze_reference, set_counter, put_metadata, observe}
use dhan_bot.Ledger.Recorded.{
  fills-reopen, new_fill-ok, Recorded, fresh, again, renamed, record_fill_once-cases,
}
use dhan_bot.Ledger.History.{
  Call, create, attempt, set_state, order, fill, charges, reference, count, note, store, sample,
  apply, after, run, run_induction, drop_flag,
}

-- The quantity of the intent of that identity, and zero where there is none.
pub allowed : String → List IntentRow → ℕ
allowed id [] = 0
allowed id (r ∷ rs) = if str_eq r.intent_id id then r.quantity else allowed id rs

abbrev pub IsFit : Db → Type 0
IsFit db = (id : String) → filled_quantity id db.fills ≤ allowed id db.intents

allowed-put_state :
    (id j : String) (s : IntentState) (rs : List IntentRow)
    → allowed id (put_state j s rs) ≡ allowed id rs
unfolding allowed put_state
allowed-put_state id j s [] = refl
allowed-put_state id j s (r ∷ rs) = ground (arith, allowed-put_state id j s rs)

allowed-reopen :
    (id j : String) (rs : List IntentRow) → allowed id (reopen_rows j rs) ≡ allowed id rs
unfolding allowed
allowed-reopen id j [] = refl
allowed-reopen id j (r ∷ rs) = ground (arith, allowed-reopen id j rs)

allowed-append :
    (id : String) (rs : List IntentRow) (r : IntentRow) → allowed id rs ≤ allowed id (rs ++ r ∷ [])
unfolding allowed
allowed-append id [] r = omega arith
allowed-append id (x ∷ rs) r = ground (arith, allowed-append id rs r)

allowed-find :
    (id : String) (rs : List IntentRow) (r : IntentRow)
    → find_intent id rs ≡ some r
    → allowed id rs ≡ r.quantity
unfolding allowed find_intent
allowed-find id [] r h = cc
allowed-find id (x ∷ rs) r h = ground (arith, allowed-find id rs r)

filled-append :
    (id : String) (fs : List FillRow) (f : FillRow)
    → filled_quantity id (fs ++ f ∷ [])
      ≡ filled_quantity id fs + (if str_eq f.intent_id id then f.quantity else 0)
unfolding filled_quantity
filled-append id [] f = omega arith
filled-append id (g ∷ fs) f = ground (arith, filled-append id fs f)

filled-rename :
    (id : String) (a b : TradeKey) (fs : List FillRow)
    → filled_quantity id (rename_fill a b fs) ≡ filled_quantity id fs
unfolding filled_quantity rename_fill
filled-rename id a b [] = refl
filled-rename id a b (f ∷ fs) = ground (arith, filled-rename id a b fs)

filled-put_fees :
    (id : String) (k : TradeKey) (v : ℕ) (fs : List FillRow)
    → filled_quantity id (put_fees k v fs) ≡ filled_quantity id fs
unfolding filled_quantity put_fees
filled-put_fees id k v [] = refl
filled-put_fees id k v (f ∷ fs) = ground (arith, filled-put_fees id k v fs)

pub allowed-reopened :
    (k id why : String) (db : Db)
    → allowed k (reopen_recovery_closed id why db).intents ≡ allowed k db.intents
unfolding reopen_recovery_closed
allowed-reopened k id why db = ground (arith, allowed-reopen k id db.intents)

reopen-IsFit : (i why : String) (db : Db) → IsFit db → IsFit (reopen_recovery_closed i why db)
reopen-IsFit i why db h id = rw (fills-reopen i why db, allowed-reopened id i why db) (h id)

create-IsFit : (x : Intent) (v : ℕ) (db : Db) → IsFit db → IsFit (after (create_intent x v db) db)
unfolding create_intent
create-IsFit x v db h id = ground (arith, h id, allowed-append id db.intents (new_row x v))

order-IsFit :
    (o i a : String) (s : OrderState) (p : BrokerOrder) (db : Db)
    → IsFit db
    → IsFit (after (record_order o i a s p db) db)
unfolding record_order
order-IsFit o i a s p db h id =
    let row : OrderRow = record {
      order_id = o;
      intent_id = i;
      broker_account = a;
      state = s;
      payload = p;
    } in
    let stored = record db { orders = put_order row db.orders } in
    ground (arith, h id, reopen-IsFit i "LATE_BROKER_ORDER" stored h id)

repeat-fills :
    (x : Fill) (old : FillRow) (rows out : List FillRow) (id : String)
    → repeat_fill x old rows ≡ ok out
    → filled_quantity id out ≡ filled_quantity id rows
unfolding repeat_fill
repeat-fills x old rows out id h = ground (arith, filled-put_fees id (key_of x) x.fees rows)

new_fill-IsFit :
    (x : Fill) (i : String) (db : Db) (b : Bool) (db' : Db)
    → new_fill x i db ≡ ok (b, db')
    → IsFit db
    → IsFit db'
new_fill-IsFit x i db b db' h fit id =
    let (r, e, room, _, fills, intents) = new_fill-ok x i db b db' h in
    rw
      (
        fills,
        intents,
        allowed-reopened id i "LATE_BROKER_FILL" db,
        filled-append id db.fills (fill_row x i),
      )
      (ground (arith, fit id, allowed-find i db.intents r e, eq_iff i id))

fill-IsFit :
    (x : Fill) (i : String) (db : Db) {b : Bool} {db' : Db}
    → Recorded x i db b db'
    → IsFit db
    → IsFit db'
fill-IsFit x i db {b} {db'} (fresh n h) fit id = new_fill-IsFit x i db b db' h fit id
fill-IsFit x i db (again old out r e same) fit id =
    rw same (rw (repeat-fills x old db.fills out id r) (fit id))
fill-IsFit x i db (renamed old out r n e same) fit id = rw same (
    rw (repeat-fills x old _ out id r, filled-rename id (bare x.trade_id) (key_of x) db.fills)
      (fit id))

charges-IsFit :
    (now : ℕ) (o i : String) (v : ℕ) (c : Bool) (db : Db)
    → IsFit db
    → IsFit (after (record_order_charges now o i v c db) db)
unfolding record_order_charges
charges-IsFit now o i v c db h id = ground (arith, h id)

apply_fill-IsFit :
    (x : Fill) (i : String) (db : Db) → IsFit db → IsFit (after (apply (fill x i) db) db)
unfolding apply
apply_fill-IsFit x i db h = settled (record_fill_once x i db) refl
  where
    settled :
        (r : Result (Bool × Db)) → record_fill_once x i db ≡ r → IsFit (after (r >>= drop_flag) db)
    settled (ok (b, db')) e = fill-IsFit x i db (record_fill_once-cases x i db b db' e) h
    settled (err m) e = h

apply-IsFit : (c : Call) (db : Db) → IsFit db → IsFit (after (apply c db) db)
unfolding apply record_attempt set_intent_state incident freeze_reference set_counter put_metadata
    observe
apply-IsFit (create x v) db h id = create-IsFit x v db h id
apply-IsFit (attempt now a i s) db h id =
    rw (allowed-put_state id i (state_after_attempt s) db.intents) (h id)
apply-IsFit (set_state i s) db h id = rw (allowed-put_state id i s db.intents) (h id)
apply-IsFit (order o i a s p) db h id = order-IsFit o i a s p db h id
apply-IsFit (fill x i) db h id = apply_fill-IsFit x i db h id
apply-IsFit (charges now o i v c) db h id = charges-IsFit now o i v c db h id
apply-IsFit (reference s p) db h id = ground (arith, h id)
apply-IsFit (count n v) db h id = h id
apply-IsFit (note i k) db h id = h id
apply-IsFit (store k v) db h id = h id
apply-IsFit (sample i p) db h id = h id

-- Whatever calls the ledger receives from the empty database on, refused ones included, the fills
-- recorded for an intent never add up to more than the quantity of that intent, and an identity
-- that no intent has stays without filled quantity.
pub run-IsFit :
    (calls : List Call) (id : String)
    → filled_quantity id (run calls empty_db).fills ≤ allowed id (run calls empty_db).intents
unfolding filled_quantity
run-IsFit calls = run_induction IsFit apply-IsFit calls empty_db (λ id. omega arith)
