-- ===== src/Domain/Checks.antt =====
-- The checks that dhan_cas_bot/domain.py makes when a value is built: each `__post_init__`, and
-- `Mandate.validate`. A check returns the value unchanged or raises.
use dhan_bot.Prelude.{
  ℕ, ◌-◌, ◌%◌, String, Bool, true, false, Option, none, some, List, [], ◌∷◌, map, ℤ, pos, ltb_ℤ,
  leb_ℤ, ltb, leb, ◌==◌, str_eq, ◌&&◌, ◌||◌, not, length, Result, ok, raise_if, ◌>>◌, if◌then◌else◌,
}
use Prim.Native.Char.{code}
use dhan_bot.Domain.Types.{
  Segment, nse_fno, nse_index, Instrument, Level, OptionBook, IndexObservation, Mandate, DebitScope,
  none_scope, other_scope, Fill, Intent,
}

-- `str.upper` on the ASCII letters.
abbrev pub codes : String → List ℕ
codes String.[] = []
codes (String.◌∷◌ c s) = code c ∷ codes s

abbrev pub upper_code : ℕ → ℕ
upper_code c = if leb b'a' c && leb c b'z' then c - 32 else c

abbrev pub same_codes : List ℕ → List ℕ → Bool
same_codes [] [] = true
same_codes (a ∷ as') (b ∷ bs) = a == b && same_codes as' bs
same_codes _ _ = false

unfoldable pub upper_is : String → String → Bool
upper_is s target = same_codes (map upper_code (codes s)) (codes target)

abbrev pub is_fno : Segment → Bool
is_fno nse_fno = true
is_fno nse_index = false

unfoldable pub check_instrument : Instrument → Result Instrument
unfolding upper_is
check_instrument i = do
  raise_if
      (str_eq i.security_id "" || not (is_fno i.segment) || not (upper_is i.underlying "NIFTY"))
      "instrument is not an NSE NIFTY option"
  raise_if (leb i.lot_size 0 || ltb i.freeze_qty i.lot_size)
      "freeze quantity must permit at least one lot"
  raise_if (leb i.tick_size 0) "invalid instrument price metadata"
  ok i

unfoldable pub check_level : Level → Result Level
check_level l = do raise_if (leb l.price 0) "invalid book level"; ok l

unfoldable pub check_book : OptionBook → Result OptionBook
check_book b = do
  raise_if (ltb 5 (length b.bids) || ltb 5 (length b.asks))
      "Dhan Full book must have at most five levels"
  raise_if (str_eq b.epoch "" || leb b.received_ns 0) "book identity is required"
  ok b

unfoldable pub check_observation : IndexObservation → Result IndexObservation
check_observation x = do
  raise_if (leb x.value 0 || leb x.received_ns 0) "invalid index observation"
  raise_if (not (str_eq x.frame_kind "live_feed") || not x.wrapper_present)
      "reference observations require a live IEP/LTP frame"
  ok x

abbrev pub known_scope : DebitScope → Bool
known_scope (other_scope s) = false
known_scope _ = true

abbrev pub is_none_scope : DebitScope → Bool
is_none_scope none_scope = true
is_none_scope _ = false

abbrev pub negative : Option ℤ → Bool
negative none = false
negative (some v) = ltb_ℤ v (pos 0)

abbrev pub not_positive : Option ℤ → Bool
not_positive none = false
not_positive (some v) = leb_ℤ v (pos 0)

abbrev pub is_none {ℓ} : {A : Type ℓ} → Option A → Bool
is_none none = true
is_none (some v) = false

-- `Mandate.validate`
unfoldable pub validate_mandate : Mandate → Result (Unit {0})
validate_mandate m = do
  raise_if (str_eq m.account_id "" || not (str_eq m.strategy_id "CAS_LAG_V1"))
      "invalid mandate identity"
  raise_if (ltb_ℤ m.allocated_capital (pos 0)) "allocated capital cannot be negative"
  raise_if (negative m.cumulative_entry_debit_cap) "entry debit cap cannot be negative"
  raise_if (not (known_scope m.debit_cap_scope)) "invalid debit cap scope"
  raise_if (is_none m.cumulative_entry_debit_cap && not (is_none_scope m.debit_cap_scope))
      "null debit cap requires scope none"
  raise_if (not (is_none m.cumulative_entry_debit_cap) && is_none_scope m.debit_cap_scope)
      "finite debit cap requires session or mandate scope"
  raise_if (leb_ℤ m.probe_max_attempts_per_session (pos 0)) "probe attempts must be positive"
  raise_if
      (leb_ℤ m.probe_entry_debit_cap_per_session (pos 0)
        || leb_ℤ m.probe_spending_cap_per_mandate (pos 0))
      "probe budgets must be finite and positive"
  raise_if (not_positive m.equity_ceiling) "equity ceiling must be positive"
  ok tt

unfoldable pub check_fill : Fill → Result Fill
check_fill f = do
  raise_if (str_eq f.trade_id "" || str_eq f.order_id "" || leb f.quantity 0 || leb f.price 0)
      "invalid fill"
  ok f

unfoldable pub check_intent : Intent → Result Intent
check_intent x = do
  raise_if (leb x.quantity 0) "invalid intent"
  raise_if (leb x.limit_price 0) "only positive LIMIT IOC intents are supported"
  raise_if (not (x.quantity % x.instrument.lot_size == 0)) "intent quantity must be whole lots"
  ok x
