-- ===== src/Settlement/Cash.antt =====
-- `match_settlement` of dhan_cas_bot/settlement_cash.py. The text of the expiry date, which the source
-- formats with `isoformat`, is an argument.
use dhan_bot.Prelude.{
  ℕ, ◌*◌, String, str_eq, Bool, true, false, Option, none, some, List, [], ◌∷◌, map, not, ◌&&◌,
  ◌||◌, leb, ◌==◌, ℤ, pos, leb_ℤ, ◌-ℤ◌, Result, ok, raise_if, ◌>>=◌, ◌>>◌, if◌then◌else◌,
}
use dhan_bot.Domain.{Instrument}
use dhan_bot.Domain.Checks.{codes, upper_code}
use dhan_bot.Risk.{default_fees, conditional_sale_cash}
use dhan_bot.Settlement.Final.{FinalValue, one_of}
use dhan_bot.Strategy.{intrinsic}

-- A row of the broker's statement; a missing amount is zero, a missing text is empty.
pub record Row : Type 0 where
  pub client_id : String
  pub narration : String
  pub exchange : String
  pub credit : ℤ
  pub debit : ℤ
  pub voucher : String

pub record Receipt : Type 0 where
  pub voucher : String
  pub credit : ℤ
  pub row : Row

abbrev pub is_digit : ℕ → Bool
is_digit c = leb b'0' c && leb c b'9'

abbrev pub starts_digit : List ℕ → Bool
starts_digit [] = false
starts_digit (c ∷ cs) = is_digit c

-- The rest of a text after a prefix, if it has the prefix.
abbrev pub after_prefix : List ℕ → List ℕ → Option (List ℕ)
after_prefix [] text = some text
after_prefix (p ∷ ps) [] = none
after_prefix (p ∷ ps) (c ∷ cs) = if p == c then after_prefix ps cs else none

abbrev pub is_there : Option (List ℕ) → Bool
is_there none = false
is_there (some rest) = true

-- `word in text`
unfoldable pub occurs : List ℕ → List ℕ → Bool
occurs word [] = is_there (after_prefix word [])
occurs word (c ∷ cs) = is_there (after_prefix word (c ∷ cs)) || occurs word cs

abbrev pub ends_word : Option (List ℕ) → Bool
ends_word none = false
ends_word (some rest) = not (starts_digit rest)

-- `re.search(r"(?<!\d)" + word + r"(?!\d)", text)`, where `free` says that no digit stands before.
unfoldable pub occurs_alone : Bool → List ℕ → List ℕ → Bool
occurs_alone free word [] = free && ends_word (after_prefix word [])
occurs_alone free word (c ∷ cs) =
    free && ends_word (after_prefix word (c ∷ cs)) || occurs_alone (not (is_digit c)) word cs

-- The narration names the contract, its expiry and a settlement, on an options exchange.
unfoldable pub names_settlement : Instrument → String → Row → Bool
names_settlement i expiry_text r =
    let text = map upper_code (codes r.narration) in
    (occurs (codes "EXERCISE") text || occurs (codes "EXPIRY SETTLEMENT") text)
    && occurs_alone true (codes i.security_id) text
    && occurs (codes expiry_text) text
    && occurs (codes "NIFTY") text
    && one_of ("NSE-FO" ∷ "NSE-FNO" ∷ "NSE_FNO" ∷ "NSE-DERIVATIVES" ∷ []) r.exchange

abbrev pub net_credit : Row → ℤ
net_credit r = r.credit -ℤ r.debit

unfoldable pub is_receipt : Instrument → String → ℤ → ℤ → Row → Bool
is_receipt i expiry_text estimated gross r =
    names_settlement i expiry_text r
    && leb_ℤ estimated (net_credit r)
    && leb_ℤ (net_credit r) gross
    && not (str_eq r.voucher "")

-- The loop; a row of another account stops it.
unfoldable pub receipts : String → Instrument → String → ℤ → ℤ → List Row → Result (List Receipt)
receipts account i expiry_text estimated gross [] = ok []
receipts account i expiry_text estimated gross (r ∷ rs) = do
  raise_if (not (str_eq r.client_id account)) "foreign broker ledger account"
  rest ← receipts account i expiry_text estimated gross rs
  ok (
      if is_receipt i expiry_text estimated gross r
      then record { voucher = r.voucher; credit = net_credit r; row = r } ∷ rest
      else rest)

-- `found[0] if len(found)==1 else None`
abbrev pub only : List Receipt → Option Receipt
only [] = none
only (x ∷ []) = some x
only (x ∷ y ∷ xs) = none

unfoldable pub match_settlement :
    List Row → String → Instrument → String → FinalValue → ℕ → Result (Option Receipt)
match_settlement rows account i expiry_text final quantity = do
  let target = intrinsic i.option_type i.strike final.value
  estimated ← conditional_sale_cash quantity target 1 default_fees
  found ← receipts account i expiry_text estimated (pos (target * quantity)) rows
  ok (only found)
