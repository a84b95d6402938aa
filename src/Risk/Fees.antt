-- ===== src/Risk/Fees.antt =====
-- Rounding and `class FeeSchedule` of dhan_cas_bot/risk.py. A rate is a count of billionths, which
-- holds each of the source's rates exactly; the product of an amount and a rate is then a count
-- of billionths of a money unit.
use dhan_bot.Prelude.{
  ℕ, ◌+◌, ◌-◌, ◌*◌, ◌/◌, leb, Result, ok, raise_if, ◌>>=◌, ◌>>◌, ℤ, sub_ℕ, ◌||◌, ceil_div,
}
use dhan_bot.Domain.{paisa, rupee}

abbrev pub billion : ℕ
billion = 1000000000

unfoldable pub ceil_paise : ℕ → ℕ
ceil_paise v = ceil_div v paisa * paisa

unfoldable pub floor_paise : ℕ → ℕ
floor_paise v = v / paisa * paisa

pub record FeeSchedule : Type 0 where
  pub brokerage_per_child : ℕ
  pub exchange_rate : ℕ
  pub sebi_rate : ℕ
  pub ipft_rate : ℕ
  pub buy_stamp_rate : ℕ
  pub sell_stt_rate : ℕ
  pub gst_rate : ℕ

-- The defaults of the dataclass: 20 rupees, 3552.99/10^7, 10/10^7, 0.01/10^7, 0.00003, 0.0015, 0.18.
abbrev pub default_fees : FeeSchedule
default_fees = record {
  brokerage_per_child = 200000;
  exchange_rate = 355299;
  sebi_rate = 1000;
  ipft_rate = 1;
  buy_stamp_rate = 30000;
  sell_stt_rate = 1500000;
  gst_rate = 180000000;
}

-- `_upper`: `value` in billionths, rounded up to the quantum, and a quantum more for each further
-- child order.
unfoldable pub upper : ℕ → ℕ → ℕ → Result ℕ
upper value quantum children = do
  raise_if (leb children 0) "invalid fee inputs"
  ok (ceil_div value (billion * quantum) * quantum + (children - 1) * quantum)

unfoldable pub common_fees : FeeSchedule → ℕ → ℕ → Result ℕ
unfolding upper
common_fees f turnover children = do
  let brokerage = f.brokerage_per_child * children
  exchange ← upper (turnover * f.exchange_rate) paisa children
  sebi ← upper (turnover * f.sebi_rate) paisa children
  ipft ← upper (turnover * f.ipft_rate) paisa children
  let base = brokerage + exchange + sebi + ipft
  gst ← upper (base * f.gst_rate) paisa children
  ok (base + gst)

unfoldable pub buy_fees : FeeSchedule → ℕ → ℕ → Result ℕ
unfolding common_fees
buy_fees f turnover children = do
  common ← common_fees f turnover children
  stamp ← upper (turnover * f.buy_stamp_rate) rupee children
  ok (common + stamp)

unfoldable pub sell_fees : FeeSchedule → ℕ → ℕ → Result ℕ
unfolding common_fees
sell_fees f turnover children = do
  common ← common_fees f turnover children
  stt ← upper (turnover * f.sell_stt_rate) rupee children
  ok (common + stt)

unfoldable pub worst_case_entry_cash : ℕ → ℕ → ℕ → FeeSchedule → Result ℕ
worst_case_entry_cash quantity limit children f = do
  raise_if (leb quantity 0 || leb children 0 || leb limit 0) "entry cash inputs must be positive"
  let turnover = quantity * limit
  fees ← buy_fees f turnover children
  ok (turnover + fees)

unfoldable pub conditional_sale_cash : ℕ → ℕ → ℕ → FeeSchedule → Result ℤ
conditional_sale_cash quantity target children f = do
  let turnover = quantity * target
  fees ← sell_fees f turnover children
  ok (sub_ℕ turnover fees)

unfoldable pub reserve_cash : ℕ → ℕ
unfolding ceil_paise
reserve_cash v = ceil_paise v
