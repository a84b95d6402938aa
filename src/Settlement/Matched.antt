-- ===== src/Settlement/Matched.antt =====
-- When dhan_cas_bot/settlement_cash.py takes a row of the broker's statement for a settlement.
use dhan_bot.Strategy.{intrinsic}
use dhan_bot.Settlement.Final.{FinalValue}
use dhan_bot.Domain.{Instrument}
use dhan_bot.Settlement.Cash.{
  net_credit, receipts, Row, Receipt, match_settlement, is_receipt, only, names_settlement,
}
use dhan_bot.Prelude.{
  ℕ, ◌*◌, ◌≡◌, ◌↔◌, ◌≢◌, refl, arith, String, str_eq, true, Option, none, some, List, [], ◌∷◌, All,
  sum_of, length, inl, inr, Bool-cases, ℤ, pos, ◌≤ℤ◌, ok, not, >>=-eq-ok, ◌>>=◌, raise_if,
  if◌then◌else◌, eq_iff, subst, ◌∙◌,
}
use dhan_bot.Risk.{default_fees, conditional_sale_cash}

-- A receipt of the statement: its row qualifies, and the receipt repeats the row.
abbrev pub IsOf : Instrument → String → ℤ → ℤ → Receipt → Type 0
IsOf i expiry low high x =
    (names_settlement i expiry x.row ≡ true)
    × (low ≤ℤ x.credit)
    × (x.credit ≤ℤ high)
    × (x.credit ≡ net_credit x.row)
    × (x.voucher ≡ x.row.voucher)
    × (x.voucher ≢ "")

-- How many rows qualify.
abbrev pub qualifying : Instrument → String → ℤ → ℤ → List Row → ℕ
qualifying i expiry low high = sum_of (λ (r : Row). if is_receipt i expiry low high r then 1 else 0)

is_receipt-IsOf :
    (i : Instrument) (expiry : String) (low high : ℤ) (r : Row)
    → is_receipt i expiry low high r ≡ true
    → IsOf i expiry low high (record { voucher = r.voucher; credit = net_credit r; row = r })
unfolding is_receipt
is_receipt-IsOf i expiry low high r h = (
  ground arith,
  ground arith,
  ground arith,
  refl,
  refl,
  λ e. absurd (ground (arith, eq_iff r.voucher "")),
)

abbrev pub OfAccount : String → List Row → Type 0
OfAccount account = All (λ (r : Row). str_eq r.client_id account ≡ true)

receipts-ok :
    (account : String) (i : Instrument) (expiry : String) (low high : ℤ) (rows : List Row)
    (xs : List Receipt)
    → receipts account i expiry low high rows ≡ ok xs
    → OfAccount account rows
      × (length xs ≡ qualifying i expiry low high rows)
      × All (IsOf i expiry low high) xs
unfolding receipts
receipts-ok account i expiry low high [] xs h =
    let same : [] ≡ xs = ground (arith, h) in
    subst (λ (ys : List Receipt). Unit {0} × (length ys ≡ 0) × All (IsOf i expiry low high) ys) same
      (tt, refl, tt)
receipts-ok account i expiry low high (r ∷ rs) xs h =
    let add = λ (rest : List Receipt).
      if is_receipt i expiry low high r
      then record { voucher = r.voucher; credit = net_credit r; row = r } ∷ rest
      else rest in
    let (_, own, k) =
      >>=-eq-ok (raise_if (not (str_eq r.client_id account)) "foreign broker ledger account")
        (λ _. receipts account i expiry low high rs >>= λ rest. ok (add rest)) h in
    let (rest, e, done) =
      >>=-eq-ok (receipts account i expiry low high rs) (λ rest. ok (add rest)) k in
    let (accounts, count, all) = receipts-ok account i expiry low high rs rest e in
    let same : add rest ≡ xs = ground (arith, done) in
    let mine : str_eq r.client_id account ≡ true = ground (arith, own) in
    subst
      (λ (ys : List Receipt).
        OfAccount account (r ∷ rs)
        × (length ys ≡ qualifying i expiry low high (r ∷ rs))
        × All (IsOf i expiry low high) ys)
      same
      (elim (Bool-cases (is_receipt i expiry low high r)) [
        | inl found ↦ rw found (
          (mine, accounts),
          omega (arith, count),
          (is_receipt-IsOf i expiry low high r found, all),
        )
        | inr skipped ↦ rw skipped ((mine, accounts), omega (arith, count), all)
      ])

only_iff : (xs : List Receipt) → (only xs ≢ none) ↔ (length xs ≡ 1)
only_iff [] = (λ h. absurd (h refl), λ h. absurd (omega (arith, h)))
only_iff (x ∷ []) = (λ h. refl, λ h e. absurd (ground (arith, e)))
only_iff (x ∷ y ∷ xs) = (λ h. absurd (h refl), λ h. absurd (omega (arith, h)))

only-All :
    (P : Receipt → Type 0) (xs : List Receipt) (x : Receipt) → All P xs → only xs ≡ some x → P x
only-All P [] x h e = absurd (ground (arith, e))
only-All P (y ∷ []) x h e = subst P (ground (arith, e)) h.0
only-All P (y ∷ z ∷ xs) x h e = absurd (ground (arith, e))

-- A statement that is searched without an error has rows of the account only. A receipt is found exactly
-- when one row and no other qualifies; its row then names the contract, its expiry and a settlement,
-- and its credit, less the debit, lies between the exercise value less the modelled charges and
-- the exercise value, under a voucher number.
pub match_settlement-IsOf :
    (rows : List Row) (account : String) (i : Instrument) (expiry : String) (final : FinalValue)
    (quantity : ℕ) (found : Option Receipt)
    → match_settlement rows account i expiry final quantity ≡ ok found
    → let gross = intrinsic i.option_type i.strike final.value * quantity in
      OfAccount account rows
      × (low : ℤ) × (conditional_sale_cash quantity
            (intrinsic i.option_type i.strike final.value)
            1
            default_fees
          ≡ ok low)
      × ((found ≢ none) ↔ (qualifying i expiry low (pos gross) rows ≡ 1))
      × ((x : Receipt) → found ≡ some x → IsOf i expiry low (pos gross) x)
unfolding match_settlement
match_settlement-IsOf rows account i expiry final quantity found h =
    let target = intrinsic i.option_type i.strike final.value in
    let search = λ (low : ℤ). receipts account i expiry low (pos (target * quantity)) rows in
    let (low, e, k) =
      >>=-eq-ok (conditional_sale_cash quantity target 1 default_fees)
        (λ low. search low >>= λ xs. ok (only xs)) h in
    let (xs, e2, done) = >>=-eq-ok (search low) (λ xs. ok (only xs)) k in
    let (accounts, count, all) =
      receipts-ok account i expiry low (pos (target * quantity)) rows xs e2 in
    let same : only xs ≡ found = ground (arith, done) in
    (
      accounts,
      low,
      e,
      subst
          (λ (o : Option Receipt).
            (o ≢ none) ↔ (qualifying i expiry low (pos (target * quantity)) rows ≡ 1))
          same (rw (← count) (only_iff xs)),
      λ x f. only-All (IsOf i expiry low (pos (target * quantity))) xs x all (same ∙ f),
    )
