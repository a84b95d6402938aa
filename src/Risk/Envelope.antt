-- ===== src/Risk/Envelope.antt =====
-- What the fee envelope of dhan_cas_bot/risk.py promises: child orders are covered, and the cash of
-- an entry grows with its inputs.
use dhan_bot.Prelude.{
  ℕ, ◌+◌, ◌*◌, ◌≤◌, ◌<◌, ◌≡◌, refl, arith, List, [], ◌∷◌, Result, ok, ◌>>=◌, sum_of, length, suc,
  mul_mono, leb, false,
}
use dhan_bot.Risk.Fees.{FeeSchedule, buy_fees, sell_fees, worst_case_entry_cash}
use dhan_bot.Risk.Amounts.{
  buy_amount, sell_amount, buy-eq, sell-eq, buy_amount-add, sell_amount-add, buy_amount_mono,
}

-- The charges of several orders, each billed as one child of its own.
abbrev pub billed_apart : (ℕ → ℕ → Result ℕ) → List ℕ → Result ℕ
billed_apart fee [] = ok 0
billed_apart fee (t ∷ ts) = do first ← fee t 1; rest ← billed_apart fee ts; ok (first + rest)

-- The first bill is at most the second, and neither raises.
abbrev pub Covered : Result ℕ → Result ℕ → Type 0
Covered apart together = (a : ℕ) × (b : ℕ) × (apart ≡ ok a) × (together ≡ ok b) × (a ≤ b)

abbrev total_of : List ℕ → ℕ
total_of = sum_of (λ t. t)

module _ (fee : ℕ → ℕ → Result ℕ) (amount : ℕ → ℕ → ℕ)
    (fee-eq : (t n : ℕ) → 0 < n → fee t n ≡ ok (amount t n))
    (amount-add : (s t n m : ℕ)
      → 0 < n
      → 0 < m
      → amount s n + amount t m ≤ amount (s + t) (n + m)) where
  apart-eq : (ts : List ℕ) → billed_apart fee ts ≡ ok (sum_of (λ t. amount t 1) ts)
  apart-eq [] = refl
  apart-eq (t ∷ ts) = rw (fee-eq t 1 (omega arith), apart-eq ts)

  apart-le :
      (t : ℕ) (ts : List ℕ)
      → sum_of (λ t. amount t 1) (t ∷ ts) ≤ amount (total_of (t ∷ ts)) (length (t ∷ ts))
  apart-le t [] = let e : t + 0 ≡ t = omega arith in rw e (omega arith)
  apart-le t (u ∷ ts) =
      let n = length (u ∷ ts) in
      let s = total_of (u ∷ ts) in
      let e : suc n ≡ 1 + n = omega arith in
      rw e (omega (arith, apart-le u ts, amount-add t s 1 n (omega arith) (omega arith)))

  apart-Covered :
      (t : ℕ) (ts : List ℕ)
      → Covered (billed_apart fee (t ∷ ts)) (fee (total_of (t ∷ ts)) (length (t ∷ ts)))
  apart-Covered t ts = (
    sum_of (λ t. amount t 1) (t ∷ ts),
    amount (total_of (t ∷ ts)) (length (t ∷ ts)),
    apart-eq (t ∷ ts),
    fee-eq (total_of (t ∷ ts)) (length (t ∷ ts)) (omega arith),
    apart-le t ts,
  )

-- Billing the child orders of a purchase or of a sale one by one never costs more than the envelope
-- charged for their joint turnover and their number, whatever the rates and the way the turnover
-- is divided; neither calculation raises.
pub billed_apart-Covered :
    (f : FeeSchedule) (t : ℕ) (ts : List ℕ)
    → Covered
        (billed_apart (buy_fees f) (t ∷ ts))
        (buy_fees f (total_of (t ∷ ts)) (length (t ∷ ts)))
      × Covered
          (billed_apart (sell_fees f) (t ∷ ts))
          (sell_fees f (total_of (t ∷ ts)) (length (t ∷ ts)))
billed_apart-Covered f t ts = (
  apart-Covered (buy_fees f) (buy_amount f) (buy-eq f) (buy_amount-add f) t ts,
  apart-Covered (sell_fees f) (sell_amount f) (sell-eq f) (sell_amount-add f) t ts,
)

-- The cash of an entry in closed form.
pub entry_amount : FeeSchedule → ℕ → ℕ → ℕ → ℕ
entry_amount f quantity limit children = quantity * limit + buy_amount f (quantity * limit) children

turnover-le : (f : FeeSchedule) (q p n : ℕ) → q * p ≤ entry_amount f q p n
unfolding entry_amount
turnover-le f q p n = omega arith

not_leb : (n : ℕ) → 0 < n → leb n 0 ≡ false
not_leb n h = ground arith

pub entry-eq :
    (f : FeeSchedule) (q p n : ℕ)
    → 0 < q
    → 0 < p
    → 0 < n
    → worst_case_entry_cash q p n f ≡ ok (entry_amount f q p n)
unfolding worst_case_entry_cash entry_amount
entry-eq f q p n hq hp hn =
    rw (not_leb q hq, not_leb p hp, not_leb n hn) (rw (buy-eq f (q * p) n hn))

pub entry_amount_mono :
    (f : FeeSchedule) (q p n r s m : ℕ)
    → q ≤ r
    → p ≤ s
    → n ≤ m
    → entry_amount f q p n ≤ entry_amount f r s m
unfolding entry_amount
entry_amount_mono f q p n r s m h k l =
    let t = mul_mono q r p s h k in omega (arith, t, buy_amount_mono f (q * p) (r * s) n m t l)

-- The cash of an entry never falls when the quantity, the limit or the number of child orders
-- grows; for positive inputs it is computed without an error and is at least the turnover.
pub worst_case_entry_cash_mono :
    (f : FeeSchedule) (q p n r s m : ℕ)
    → 0 < q
    → 0 < p
    → 0 < n
    → q ≤ r
    → p ≤ s
    → n ≤ m
    → (a : ℕ) × (b : ℕ) × (worst_case_entry_cash q p n f ≡ ok a)
      × (worst_case_entry_cash r s m f ≡ ok b)
      × (q * p ≤ a)
      × (a ≤ b)
worst_case_entry_cash_mono f q p n r s m hq hp hn h k l = (
  entry_amount f q p n,
  entry_amount f r s m,
  entry-eq f q p n hq hp hn,
  entry-eq f r s m (omega arith) (omega arith) (omega arith),
  turnover-le f q p n,
  entry_amount_mono f q p n r s m h k l,
)

pub entry_amount_lem :
    (f : FeeSchedule) (q p n : ℕ) → entry_amount f q p n ≡ q * p + buy_amount f (q * p) n
unfolding entry_amount
entry_amount_lem f q p n = refl
