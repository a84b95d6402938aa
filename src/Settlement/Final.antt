-- ===== src/Settlement/Final.antt =====
-- dhan_cas_bot/settlement.py and settlement_adapter.py. A date is its ordinal; the texts that
-- `fromisoformat` reads are given as the times that they denote.
use dhan_bot.Prelude.{
  ℕ, String, str_eq, Bool, not, ◌||◌, ltb, leb, ◌-◌, Result, ok, raise_if, ◌>>◌, any, List, [], ◌∷◌,
  if◌then◌else◌, ◌+◌,
}
use dhan_bot.Domain.{OptionType, ce, pe}

-- A time, and whether its text has a time zone.
pub record Stamp : Type 0 where
  pub time : ℕ
  pub has_zone : Bool

pub record FinalValue : Type 0 where
  pub trading_date : ℕ
  pub value : ℕ
  pub source : String
  pub source_field : String
  pub published_at : Stamp
  pub received_at : Stamp
  pub revision : String
  pub settlement_regime : String
  pub finality_kind : String

abbrev pub one_of : List String → String → Bool
one_of texts t = any (λ (s : String). str_eq t s) texts

-- `FinalValue.validate`
unfoldable pub validate : FinalValue → Result (Unit {0})
validate f = do
  raise_if
      (not (one_of ("NSE" ∷ "NSE_CLEARING" ∷ []) f.source)
        || not (one_of ("official_settlement_value" ∷ "closing_index_value" ∷ []) f.source_field)
        || leb f.value 0
        || not (one_of ("FINAL" ∷ "OFFICIAL_SETTLEMENT" ∷ []) f.finality_kind))
      "final input is not verified"
  raise_if
      (not f.published_at.has_zone
        || not f.received_at.has_zone
        || ltb f.received_at.time f.published_at.time
        || str_eq f.revision ""
        || not (one_of ("CASH" ∷ "NSE_CAS_2026" ∷ []) f.settlement_regime))
      "invalid final input provenance"

unfoldable pub exercise_intrinsic : OptionType → ℕ → ℕ → ℕ
exercise_intrinsic ce strike final = final - strike
exercise_intrinsic pe strike final = strike - final

pub data Choice : Type 0 where
  sale exercise : Choice

-- `compare_sale_and_exercise`: a - b >= c - d, with the terms moved to where no sign is needed.
-- Amounts have no sign here, so the check for negative ones never raises.
unfoldable pub compare_sale_and_exercise : ℕ → ℕ → ℕ → ℕ → Choice
compare_sale_and_exercise proceeds exercise_value sale_costs exercise_costs =
    if leb (exercise_value + sale_costs) (proceeds + exercise_costs) then sale else exercise

-- `FinalValueAdapter.parse` of a payload that has exactly the required fields. The source fields that
-- `validate` accepts contain none of the words of a provisional one, so the test after it
-- never raises.
unfoldable pub parse : Bool → FinalValue → Result FinalValue
parse has_required f = do
  raise_if (not has_required) "final value adapter fields are incomplete"
  validate f
  ok f
