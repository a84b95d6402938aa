-- ===== src/Ledger/Repeat.antt =====
-- Recording a fill twice is recording it once: `record_fill_once` of dhan_cas_bot/ledger.py.
use dhan_bot.Ledger.Recorded.{Recorded, fresh, again, renamed, record_fill_once-cases, new_fill-ok}
use dhan_bot.Prelude.{
  ℕ, ◌≡◌, refl, arith, String, str_eq, Bool, true, false, none, some, List, [], ◌∷◌, ◌++◌, ok,
  eq_iff, Bool-cases, inr, inl, ltb, subst, ◌∙◌,
}
use dhan_bot.Domain.{Fill}
use dhan_bot.Ledger.Tables.{TradeKey, joined, bare, FillRow, Db, same_key, find_fill}
use dhan_bot.Ledger.Orders.{
  record_fill_once, find_legacy, rename_fill, put_fees, repeat_fill, key_of, same_fill, fill_row,
}

same_key-eq : (a b : TradeKey) → same_key a b ≡ true → a ≡ b
same_key-eq (joined a b) (joined c d) h = ground (arith, eq_iff a c, eq_iff b d)
same_key-eq (joined a b) (bare c) h = ground arith
same_key-eq (bare a) (joined c d) h = ground arith
same_key-eq (bare a) (bare b) h = ground (arith, eq_iff a b)

same_key_refl : (a : TradeKey) → same_key a a ≡ true
same_key_refl (joined a b) = ground (arith, eq_iff a a, eq_iff b b)
same_key_refl (bare a) = ground (arith, eq_iff a a)

-- The primary key of the table of fills: no two rows have one identity.
abbrev pub Distinct : List FillRow → Type 0
Distinct [] = Unit
Distinct (f ∷ fs) = (find_fill f.trade_id fs ≡ none) × Distinct fs

find_fill-append :
    (k : TradeKey) (rows : List FillRow) (row : FillRow)
    → find_fill k rows ≡ none
    → same_key row.trade_id k ≡ true
    → find_fill k (rows ++ row ∷ []) ≡ some row
unfolding find_fill
find_fill-append k [] row h e = rw e
find_fill-append k (r ∷ rows) row h e = ground (arith, find_fill-append k rows row)

find_fill-put_fees :
    (k : TradeKey) (v : ℕ) (rows : List FillRow) (old : FillRow)
    → find_fill k rows ≡ some old
    → find_fill k (put_fees k v rows) ≡ some (record old { fees = v })
unfolding find_fill put_fees
find_fill-put_fees k v [] old h = cc
find_fill-put_fees k v (r ∷ rows) old h = ground (arith, find_fill-put_fees k v rows old)

find_fill-rename :
    (a b : TradeKey) (rows : List FillRow) (old : FillRow)
    → find_fill b rows ≡ none
    → find_fill a rows ≡ some old
    → find_fill b (rename_fill a b rows) ≡ some (record old { trade_id = b })
unfolding find_fill rename_fill
find_fill-rename a b [] old n h = cc
find_fill-rename a b (r ∷ rows) old n h =
    ground (arith, find_fill-rename a b rows old, same_key_refl b)

legacy-found :
    (x : Fill) (rows : List FillRow) (old : FillRow)
    → Distinct rows
    → find_legacy x rows ≡ some old
    → find_fill (bare x.trade_id) rows ≡ some old
unfolding find_legacy find_fill
legacy-found x [] old d h = cc
legacy-found x (r ∷ rows) old d h = elim (Bool-cases (same_key r.trade_id (bare x.trade_id))) [
  | inr other ↦ rw other (legacy-found x rows old d.1 (rw other at h))
  | inl same ↦ elim (Bool-cases (str_eq r.order_id x.order_id)) [
    | inl own ↦ rw same (rw own at (rw same at h))
    | inr foreign ↦
        let later = legacy-found x rows old d.1 (rw foreign at (rw same at h)) in
        let twice : find_fill (bare x.trade_id) rows ≡ none =
          subst (λ k. find_fill k rows ≡ none) (same_key-eq r.trade_id (bare x.trade_id) same)
            d.0 in
        cc (twice, later)
  ]
]

ok-injective {ℓ} : {A : Type ℓ} {a b : A} → ok a ≡ ok b → a ≡ b
ok-injective h = cc

ltb_irrefl : (n : ℕ) → ltb n n ≡ false
ltb_irrefl n = ground arith

-- A repetition that was accepted is accepted again, and changes nothing then.
repeat_fill-settled :
    (x : Fill) (old here : FillRow) (rows out : List FillRow)
    → repeat_fill x old rows ≡ ok out
    → find_fill (key_of x) rows ≡ some here
    → same_fill here x ≡ same_fill old x
    → here.fees ≡ old.fees
    → (now : FillRow) × (find_fill (key_of x) out ≡ some now) × (repeat_fill x now out ≡ ok out)
unfolding repeat_fill
repeat_fill-settled x old here rows out h found alike fees = elim (Bool-cases (same_fill old x)) [
  | inr conflict ↦ cc (rw conflict at h)
  | inl same ↦ elim (Bool-cases (ltb old.fees x.fees)) [
    | inl more ↦
        let k = key_of x in
        let e : put_fees k x.fees rows ≡ out = ok-injective (rw more at (rw same at h)) in
        rw (← e) (
          record here { fees = x.fees },
          find_fill-put_fees k x.fees rows here found,
          rw (alike ∙ same) (rw (ltb_irrefl x.fees)),
        )
    | inr enough ↦
        let e : rows ≡ out = ok-injective (rw enough at (rw same at h)) in
        rw (← e) (here, found, rw (alike ∙ same) (rw fees (rw enough)))
  ]
]

record_fill_once-repeat :
    (x : Fill) (i : String) (db : Db)
    → (row : FillRow) → find_fill (key_of x) db.fills ≡ some row
    → repeat_fill x row db.fills ≡ ok db.fills
    → record_fill_once x i db ≡ ok (false, db)
unfolding record_fill_once
record_fill_once-repeat x i db row found same = rw found (rw same)

repeat_self :
    (x : Fill) (i : String) (rows : List FillRow) → repeat_fill x (fill_row x i) rows ≡ ok rows
unfolding repeat_fill
repeat_self x i rows =
    ground (arith, eq_iff x.order_id x.order_id, eq_iff x.security_id x.security_id)

-- Under the primary key of the table, recording a fill that was accepted, new or not, once more for
-- the same intent reports it as not new and changes nothing in the database.
pub record_fill_once-idempotent :
    (x : Fill) (i : String) (db : Db) (b : Bool) (db' : Db)
    → Distinct db.fills
    → record_fill_once x i db ≡ ok (b, db')
    → record_fill_once x i db' ≡ ok (false, db')
record_fill_once-idempotent x i db b db' distinct h =
    repeated (record_fill_once-cases x i db b db' h)
  where
    repeated : Recorded x i db b db' → record_fill_once x i db' ≡ ok (false, db')
    repeated (fresh n e) =
        let k = key_of x in
        let row = fill_row x i in
        let (_, _, _, _, fills, _) = new_fill-ok x i db b db' e in
        record_fill_once-repeat x i db' row
          (rw fills (find_fill-append k db.fills row n (same_key_refl k)))
          (repeat_self x i db'.fills)
    repeated (again old out r e same) =
        let (now, found, kept) = repeat_fill-settled x old old db.fills out r e refl refl in
        rw same (record_fill_once-repeat x i (record db { fills = out }) now found kept)
    repeated (renamed old out r n e same) =
        let k = key_of x in
        let rows = rename_fill (bare x.trade_id) k db.fills in
        let here = record old { trade_id = k } in
        let renamed_row =
          find_fill-rename (bare x.trade_id) k db.fills old n
            (legacy-found x db.fills old distinct e) in
        let (now, found, kept) = repeat_fill-settled x old here rows out r renamed_row refl refl in
        rw same (record_fill_once-repeat x i (record db { fills = out }) now found kept)
