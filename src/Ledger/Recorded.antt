-- ===== src/Ledger/Recorded.antt =====
-- What `record_fill_once` of dhan_cas_bot/ledger.py can do to the database, as cases for proofs.
use dhan_bot.Prelude.{
  ◌+◌, ◌≤◌, ◌≡◌, arith, String, str_eq, Bool, true, none, some, List, [], ◌∷◌, ◌++◌, ok,
  Option-cases, inl, inr, >>=-eq-ok,
}
use dhan_bot.Domain.{Fill}
use dhan_bot.Ledger.Tables.{IntentRow, FillRow, Db, find_intent, filled_quantity, bare, find_fill}
use dhan_bot.Ledger.Intents.{reopen_recovery_closed}
use dhan_bot.Ledger.Orders.{
  rename_fill, repeat_fill, new_fill, record_fill_once, key_of, fill_row, find_legacy,
}

-- Reopening an intent changes states and incidents only.
pub fills-reopen : (id why : String) (db : Db) → (reopen_recovery_closed id why db).fills ≡ db.fills
unfolding reopen_recovery_closed
fills-reopen id why db = ground arith

pub orders-reopen :
    (id why : String) (db : Db) → (reopen_recovery_closed id why db).orders ≡ db.orders
unfolding reopen_recovery_closed
orders-reopen id why db = ground arith

pub charges-reopen :
    (id why : String) (db : Db) → (reopen_recovery_closed id why db).charges ≡ db.charges
unfolding reopen_recovery_closed
charges-reopen id why db = ground arith

-- What a new fill does: there is an intent with room for it, and the fill is appended.
pub new_fill-ok :
    (x : Fill) (i : String) (db : Db) (b : Bool) (db' : Db)
    → new_fill x i db ≡ ok (b, db')
    → (r : IntentRow) × (find_intent i db.intents ≡ some r)
      × (filled_quantity i db.fills + x.quantity ≤ r.quantity)
      × (str_eq x.security_id r.security_id ≡ true)
      × (db'.fills ≡ db.fills ++ fill_row x i ∷ [])
      × (db'.intents ≡ (reopen_recovery_closed i "LATE_BROKER_FILL" db).intents)
unfolding new_fill
new_fill-ok x i db b db' h = elim (Option-cases (find_intent i db.intents)) [
  | inl missing ↦ ground arith
  | inr (r, e) ↦ (
    r,
    e,
    ground arith,
    ground arith,
    ground (arith, fills-reopen i "LATE_BROKER_FILL" db),
    ground arith,
  )
]

-- The outcomes of a recorded fill: a new one, or a repetition of a stored row, in the table as it
-- was or with the row's key brought to the present format.
pub data Recorded (x : Fill) (i : String) (db : Db) : Bool → Db → Type 0 where
  fresh :
      {b : Bool} {db' : Db}
      → find_fill (key_of x) db.fills ≡ none
      → new_fill x i db ≡ ok (b, db')
      → Recorded x i db b db'
  again :
      {b : Bool} {db' : Db} (old : FillRow) (out : List FillRow)
      → repeat_fill x old db.fills ≡ ok out
      → find_fill (key_of x) db.fills ≡ some old
      → db' ≡ record db { fills = out }
      → Recorded x i db b db'
  renamed :
      {b : Bool} {db' : Db} (old : FillRow) (out : List FillRow)
      → repeat_fill x old (rename_fill (bare x.trade_id) (key_of x) db.fills) ≡ ok out
      → find_fill (key_of x) db.fills ≡ none
      → find_legacy x db.fills ≡ some old
      → db' ≡ record db { fills = out }
      → Recorded x i db b db'

pub record_fill_once-cases :
    (x : Fill) (i : String) (db : Db) (b : Bool) (db' : Db)
    → record_fill_once x i db ≡ ok (b, db')
    → Recorded x i db b db'
unfolding record_fill_once
record_fill_once-cases x i db b db' h = elim (Option-cases (find_fill (key_of x) db.fills)) [
  | inr (old, e) ↦
      let (out, r, k) = >>=-eq-ok (repeat_fill x old db.fills) _ (rw e at h) in
      again old out r e (ground arith)
  | inl none_yet ↦ elim (Option-cases (find_legacy x db.fills)) [
    | inl brand_new ↦ fresh none_yet (rw brand_new at (rw none_yet at h))
    | inr (old, e) ↦
        let (out, r, k) =
          >>=-eq-ok (repeat_fill x old (rename_fill (bare x.trade_id) (key_of x) db.fills)) _
            (rw e at (rw none_yet at h)) in
        renamed old out r none_yet e (ground arith)
  ]
]

pub orders-fill :
    (x : Fill) (i : String) (db : Db) {b : Bool} {db' : Db}
    → Recorded x i db b db'
    → db'.orders ≡ db.orders
unfolding new_fill
orders-fill x i db (fresh n h) = ground (arith, orders-reopen i "LATE_BROKER_FILL" db)
orders-fill x i db (again old out r e same) = rw same
orders-fill x i db (renamed old out r n e same) = rw same

pub charges-fill :
    (x : Fill) (i : String) (db : Db) {b : Bool} {db' : Db}
    → Recorded x i db b db'
    → db'.charges ≡ db.charges
unfolding new_fill
charges-fill x i db (fresh n h) = ground (arith, charges-reopen i "LATE_BROKER_FILL" db)
charges-fill x i db (again old out r e same) = rw same
charges-fill x i db (renamed old out r n e same) = rw same
