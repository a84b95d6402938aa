-- ===== src/Strategy/Largest.antt =====
-- The binary search of dhan_cas_bot/strategy.py finds the most lots that the allocation permits.
use dhan_bot.Risk.Budget.{permits_down, le-reserve_cash, reserve_cash_mono}
use dhan_bot.Risk.Envelope.{entry-eq, entry_amount, entry_amount_mono, entry_amount_lem}
use dhan_bot.Prelude.{
  ℕ, zero, suc, ◌+◌, ◌-◌, ◌*◌, ◌/◌, ◌≤◌, ◌<◌, ◌≡◌, refl, arith, Bool, true, false, Result, ok,
  Bool-cases, inl, ltb, inr, le-ceil_div, div_mono, mul_mono,
}
use dhan_bot.Risk.{Allocation, FeeSchedule, permits, reserve_cash}
use dhan_bot.Strategy.Sizing.{affordable, search_lots, most_lots, children_of}

-- `k` is the largest number up to `n` that passes, zero if none does.
pub record IsLargest (p : ℕ → Bool) (n k : ℕ) : Type 0 where
  pub within : k ≤ n
  pub passes : 0 < k → p k ≡ true
  pub beyond : (j : ℕ) → k < j → j ≤ n → p j ≡ false

module _ (test : ℕ → Result Bool) (p : ℕ → Bool) (answers : (j : ℕ) → 0 < j → test j ≡ ok (p j))
    (down : (i j : ℕ) → 0 < i → i ≤ j → p j ≡ true → p i ≡ true) where
  not_above : (i j : ℕ) → 0 < i → i ≤ j → p i ≡ false → p j ≡ false
  not_above i j h k e = elim (Bool-cases (p j)) [
    | inl t ↦ absurd (let u = down i j h k t in ground arith)
    | inr f ↦ f
  ]

  search_lots-IsLargest :
      (n fuel low high : ℕ)
      → low ≤ high
      → high ≤ n
      → high ≤ low + fuel
      → (0 < low → p low ≡ true)
      → ((j : ℕ) → high < j → j ≤ n → p j ≡ false)
      → (k : ℕ) × (search_lots test fuel low high ≡ ok k) × IsLargest p n k
  unfolding search_lots
  search_lots-IsLargest n zero low high a b c holds fails = (
    low,
    refl,
    record { within = omega arith; passes = holds; beyond = λ j h l. fails j (omega arith) l },
  )
  search_lots-IsLargest n (suc fuel) low high a b c holds fails = elim (Bool-cases (ltb low high)) [
    | inr met ↦ (
      low,
      rw met,
      record { within = omega arith; passes = holds; beyond = λ j h l. fails j (ground arith) l },
    )
    | inl apart ↦
        let middle = (low + high + 1) / 2 in
        let lt : low < high = ground arith in
        let answer = answers middle (omega arith) in
        elim (Bool-cases (p middle)) [
          | inl fits ↦
              rw (apart, answer, fits)
                (search_lots-IsLargest n fuel middle high (omega arith) b (omega arith) (λ h. fits)
                  fails)
          | inr large ↦
              rw (apart, answer, large)
                (search_lots-IsLargest n fuel low (middle - 1) (omega arith) (omega arith)
                  (omega arith) holds
                  (λ j h l. not_above middle j (omega arith) (omega arith) large))
        ]
  ]

  most_lots-IsLargest : (n : ℕ) → (k : ℕ) × (most_lots test n ≡ ok k) × IsLargest p n k
  unfolding most_lots
  most_lots-IsLargest n =
      search_lots-IsLargest n n 0 n (omega arith) (omega arith) (omega arith)
        (λ h. absurd (omega arith)) (λ j h l. absurd (omega arith))

-- The test in closed form, for positive lots, limit and child size.
abbrev fits : Allocation → FeeSchedule → ℕ → ℕ → ℕ → ℕ → Bool
fits a f limit lot child j =
    permits a (reserve_cash (entry_amount f (j * lot) limit (children_of (j * lot) child)))

children_pos : (u child : ℕ) → 0 < u → 0 < child → 0 < children_of u child
children_pos u child h k =
    let e : u + child - 1 ≡ u + (child - 1) = omega arith in
    rw e (ground (arith, le-ceil_div u child k))

children_mono : (u v child : ℕ) → u ≤ v → children_of u child ≤ children_of v child
children_mono u v child h = div_mono (u + child - 1) (v + child - 1) child (omega arith)

units_pos : (j lot : ℕ) → 0 < j → 0 < lot → 0 < j * lot
units_pos j lot h k = grind arith

module _ (a : Allocation) (f : FeeSchedule) (limit lot child : ℕ) (hp : 0 < limit) (hl : 0 < lot)
    (hc : 0 < child) where
  affordable-eq :
      (j : ℕ) → 0 < j → affordable a f limit lot child j ≡ ok (fits a f limit lot child j)
  unfolding affordable
  affordable-eq j h =
      let u = units_pos j lot h hl in
      rw (
        entry-eq f (j * lot) limit (children_of (j * lot) child) u hp
          (children_pos (j * lot) child u hc))

  fits_down :
      (i j : ℕ)
      → 0 < i
      → i ≤ j
      → fits a f limit lot child j ≡ true
      → fits a f limit lot child i ≡ true
  fits_down i j h k e =
      let cash = λ (n : ℕ). entry_amount f (n * lot) limit (children_of (n * lot) child) in
      let units = mul_mono i j lot lot k (omega arith) in
      let less =
        entry_amount_mono f (i * lot) limit (children_of (i * lot) child) (j * lot) limit
          (children_of (j * lot) child) units (omega arith)
          (children_mono (i * lot) (j * lot) child units) in
      let some_cash : 0 < cash i = omega (
        arith,
        entry_amount_lem f (i * lot) limit (children_of (i * lot) child),
        units_pos (i * lot) limit (units_pos i lot h hl) hp,
      ) in
      permits_down a (reserve_cash (cash j)) (reserve_cash (cash i)) e
        (omega (arith, some_cash, le-reserve_cash (cash i)))
        (reserve_cash_mono (cash i) (cash j) less)

  -- For a positive limit, lot and child size the search returns, without an error, the largest number
  -- of lots up to the available ones whose worst-case cash the allocation permits: that number is
  -- permitted unless it is zero, and no larger available number is.
  pub most_lots-affordable :
      (n : ℕ)
      → (k : ℕ) × (most_lots (affordable a f limit lot child) n ≡ ok k)
        × (k ≤ n)
        × (0 < k → affordable a f limit lot child k ≡ ok true)
        × ((j : ℕ) → k < j → j ≤ n → affordable a f limit lot child j ≡ ok false)
  most_lots-affordable n =
      let (k, e, h) =
        most_lots-IsLargest (affordable a f limit lot child) (fits a f limit lot child)
          affordable-eq fits_down n in
      (
        k,
        e,
        h.within,
        λ p. rw (affordable-eq k p) (rw (h.passes p)),
        λ j l m. rw (affordable-eq j (omega arith)) (rw (h.beyond j l m)),
      )
