-- ===== src/Risk/Amounts.antt =====
-- The fee envelope in closed form: for a positive number of child orders the methods of
-- `FeeSchedule` return these amounts, on which the laws are proved.
use dhan_bot.Prelude.{
  ℕ, ◌+◌, ◌-◌, ◌*◌, ◌≤◌, ◌<◌, ◌≡◌, arith, ok, ceil_div, mul_mono, div_mono, ceil_div-add, leb,
  false,
}
use dhan_bot.Domain.{paisa, rupee}
use dhan_bot.Risk.Fees.{
  FeeSchedule, billion, common_fees, buy_fees, sell_fees, ceil_paise, default_fees,
}

pub upper_amount : ℕ → ℕ → ℕ → ℕ
upper_amount v q n = ceil_div v (billion * q) * q + (n - 1) * q

pub base_amount : FeeSchedule → ℕ → ℕ → ℕ
base_amount f t n =
    f.brokerage_per_child * n
    + upper_amount (t * f.exchange_rate) paisa n
    + upper_amount (t * f.sebi_rate) paisa n
    + upper_amount (t * f.ipft_rate) paisa n

pub common_amount : FeeSchedule → ℕ → ℕ → ℕ
common_amount f t n = base_amount f t n + upper_amount (base_amount f t n * f.gst_rate) paisa n

pub buy_amount : FeeSchedule → ℕ → ℕ → ℕ
buy_amount f t n = common_amount f t n + upper_amount (t * f.buy_stamp_rate) rupee n

pub sell_amount : FeeSchedule → ℕ → ℕ → ℕ
sell_amount f t n = common_amount f t n + upper_amount (t * f.sell_stt_rate) rupee n

has_children : (n : ℕ) → 0 < n → leb n 0 ≡ false
has_children n h = ground arith

common-eq : (f : FeeSchedule) (t n : ℕ) → 0 < n → common_fees f t n ≡ ok (common_amount f t n)
unfolding common_fees common_amount base_amount upper_amount
common-eq f t n h = rw (has_children n h)

pub buy-eq : (f : FeeSchedule) (t n : ℕ) → 0 < n → buy_fees f t n ≡ ok (buy_amount f t n)
unfolding buy_fees buy_amount common_amount base_amount upper_amount
buy-eq f t n h = rw (has_children n h)

pub sell-eq : (f : FeeSchedule) (t n : ℕ) → 0 < n → sell_fees f t n ≡ ok (sell_amount f t n)
unfolding sell_fees sell_amount common_amount base_amount upper_amount
sell-eq f t n h = rw (has_children n h)

upper_amount_mono : (v w q n m : ℕ) → v ≤ w → n ≤ m → upper_amount v q n ≤ upper_amount w q m
unfolding upper_amount
upper_amount_mono v w q n m h k =
    let d = billion * q in
    omega (
      arith,
      mul_mono (ceil_div v d) (ceil_div w d) q q
          (div_mono (v + (d - 1)) (w + (d - 1)) d (omega arith)) (omega arith),
      mul_mono (n - 1) (m - 1) q q (omega arith) (omega arith),
    )

upper_amount-add :
    (v w q n m : ℕ)
    → 0 < q
    → 0 < n
    → 0 < m
    → upper_amount v q n + upper_amount w q m ≤ upper_amount (v + w) q (n + m)
unfolding upper_amount
upper_amount-add v w q n m hq hn hm =
    let d = billion * q in
    let a = ceil_div v d in
    let b = ceil_div w d in
    let c = ceil_div (v + w) d in
    let rounded : (a + b) * q ≤ (c + 1) * q =
      mul_mono (a + b) (c + 1) q q (ceil_div-add v w d (omega arith)) (omega arith) in
    let split : n + m - 1 ≡ (n - 1) + (m - 1) + 1 = omega arith in rw split (omega (arith, rounded))

-- One rate on turnover: more turnover or more children never cost less, and charging two orders
-- apart never costs more than charging them as the children of one.
rate_mono : (s t r q n m : ℕ) → s ≤ t → n ≤ m → upper_amount (s * r) q n ≤ upper_amount (t * r) q m
rate_mono s t r q n m h k =
    upper_amount_mono (s * r) (t * r) q n m (mul_mono s t r r h (omega arith)) k

rate-add :
    (s t r q n m : ℕ)
    → 0 < q
    → 0 < n
    → 0 < m
    → upper_amount (s * r) q n + upper_amount (t * r) q m ≤ upper_amount ((s + t) * r) q (n + m)
rate-add s t r q n m hq hn hm =
    let e : (s + t) * r ≡ s * r + t * r = omega arith in
    rw e (upper_amount-add (s * r) (t * r) q n m hq hn hm)

base_amount_mono :
    (f : FeeSchedule) (s t n m : ℕ) → s ≤ t → n ≤ m → base_amount f s n ≤ base_amount f t m
unfolding base_amount
base_amount_mono f s t n m h k = omega (
  arith,
  rate_mono s t f.exchange_rate paisa n m h k,
  rate_mono s t f.sebi_rate paisa n m h k,
  rate_mono s t f.ipft_rate paisa n m h k,
  mul_mono f.brokerage_per_child f.brokerage_per_child n m (omega arith) k,
)

base_amount-add :
    (f : FeeSchedule) (s t n m : ℕ)
    → 0 < n
    → 0 < m
    → base_amount f s n + base_amount f t m ≤ base_amount f (s + t) (n + m)
unfolding base_amount
base_amount-add f s t n m h k = omega (
  arith,
  rate-add s t f.exchange_rate paisa n m (omega arith) h k,
  rate-add s t f.sebi_rate paisa n m (omega arith) h k,
  rate-add s t f.ipft_rate paisa n m (omega arith) h k,
)

common_amount_mono :
    (f : FeeSchedule) (s t n m : ℕ) → s ≤ t → n ≤ m → common_amount f s n ≤ common_amount f t m
unfolding common_amount
common_amount_mono f s t n m h k =
    let b = base_amount_mono f s t n m h k in
    omega (arith, b, rate_mono (base_amount f s n) (base_amount f t m) f.gst_rate paisa n m b k)

common_amount-add :
    (f : FeeSchedule) (s t n m : ℕ)
    → 0 < n
    → 0 < m
    → common_amount f s n + common_amount f t m ≤ common_amount f (s + t) (n + m)
unfolding common_amount
common_amount-add f s t n m h k =
    let x = base_amount f s n in
    let y = base_amount f t m in
    let b = base_amount-add f s t n m h k in
    omega (
      arith,
      b,
      rate-add x y f.gst_rate paisa n m (omega arith) h k,
      rate_mono (x + y) (base_amount f (s + t) (n + m)) f.gst_rate paisa (n + m) (n + m) b
          (omega arith),
    )

pub buy_amount_mono :
    (f : FeeSchedule) (s t n m : ℕ) → s ≤ t → n ≤ m → buy_amount f s n ≤ buy_amount f t m
unfolding buy_amount
buy_amount_mono f s t n m h k =
    omega (arith, common_amount_mono f s t n m h k, rate_mono s t f.buy_stamp_rate rupee n m h k)

pub sell_amount_mono :
    (f : FeeSchedule) (s t n m : ℕ) → s ≤ t → n ≤ m → sell_amount f s n ≤ sell_amount f t m
unfolding sell_amount
sell_amount_mono f s t n m h k =
    omega (arith, common_amount_mono f s t n m h k, rate_mono s t f.sell_stt_rate rupee n m h k)

pub buy_amount-add :
    (f : FeeSchedule) (s t n m : ℕ)
    → 0 < n
    → 0 < m
    → buy_amount f s n + buy_amount f t m ≤ buy_amount f (s + t) (n + m)
unfolding buy_amount
buy_amount-add f s t n m h k = omega (
  arith,
  common_amount-add f s t n m h k,
  rate-add s t f.buy_stamp_rate rupee n m (omega arith) h k,
)

pub sell_amount-add :
    (f : FeeSchedule) (s t n m : ℕ)
    → 0 < n
    → 0 < m
    → sell_amount f s n + sell_amount f t m ≤ sell_amount f (s + t) (n + m)
unfolding sell_amount
sell_amount-add f s t n m h k = omega (
  arith,
  common_amount-add f s t n m h k,
  rate-add s t f.sell_stt_rate rupee n m (omega arith) h k,
)

-- The fee of a single order under the default schedule is a whole number of paise.
pub whole_paise : (t : ℕ) → ceil_paise (buy_amount default_fees t 1) ≡ buy_amount default_fees t 1
unfolding ceil_paise buy_amount common_amount base_amount upper_amount
whole_paise t = omega arith
