-- ===== src/Strategy/Candidates.antt =====
-- The candidates of `find_opportunity` and `find_final_opportunity` of dhan_cas_bot/strategy.py, their
-- scores, and the choice among them.
use dhan_bot.Prelude.{
  ℕ, zero, suc, ◌+◌, ◌-◌, ◌*◌, ◌/◌, min, String, Bool, true, false, Option, none, some, List, [],
  ◌∷◌, ◌++◌, ltb, leb, ◌==◌, ◌&&◌, ◌||◌, Result, ok, raise_if, ◌>>=◌, ◌>>◌, if◌then◌else◌, pos_part,
  ltb_ℤ, pos, ceil_div, ◌-ℤ◌, ℤ,
}
use dhan_bot.Domain.{Instrument}
use dhan_bot.Domain.Checks.{codes}
use dhan_bot.Risk.{
  Allocation, FeeSchedule, permits, reserve_cash, worst_case_entry_cash, conditional_sale_cash,
}
use dhan_bot.Strategy.Sizing.{children_of}

-- `side` is always "BUY". The score is (edge / entry, edge, quantity); it is kept as `edge` and
-- `entry`, and its first part is compared as a fraction, without the 28 digits of a Decimal.
pub record Opportunity : Type 0 where
  pub instrument : Instrument
  pub quantity : ℕ
  pub limit_price : ℕ
  pub edge : ℕ
  pub entry : ℕ
  pub reason : String

-- `int(security_id)`, for the digits that a security identity consists of.
abbrev pub add_digits : ℕ → List ℕ → Result ℕ
add_digits n [] = ok n
add_digits n (c ∷ cs) =
    raise_if (ltb c b'0' || ltb b'9' c) "invalid literal for int()"
    >> add_digits (n * 10 + (c - b'0')) cs

abbrev pub is_blank : List ℕ → Bool
is_blank [] = true
is_blank (c ∷ cs) = false

unfoldable pub security_number : String → Result ℕ
security_number id = do
  raise_if (is_blank (codes id)) "invalid literal for int()"
  add_digits 0 (codes id)

-- `sorted({…})` over prices: ascending, each once.
unfoldable pub insert_price : ℕ → List ℕ → List ℕ
insert_price p [] = p ∷ []
insert_price p (q ∷ qs) =
    let rest = insert_price p qs in
    if ltb p q then p ∷ q ∷ qs else if p == q then q ∷ qs else q ∷ rest

-- The whole lots that the cash buys at the limit: `int(min(remaining, spendable) / limit) // lot * lot`.
abbrev pub cash_units : Allocation → ℕ → ℕ → ℕ
cash_units a limit lot = min a.remaining a.spendable_cash / limit / lot * lot

-- `range(child, …, child)` as its first members.
abbrev pub multiples : ℕ → ℕ → ℕ → List ℕ
multiples from child zero = []
multiples from child (suc n) = from ∷ multiples (from + child) child n

-- The ends of the child orders: each multiple of the child size, and a lot less.
abbrev pub with_boundaries : ℕ → List ℕ → List ℕ → List ℕ
with_boundaries lot [] set = set
with_boundaries lot (b ∷ bs) set =
    with_boundaries lot bs (insert_price (b - lot) (insert_price b set))

-- `sorted(q for q in quantities if 0 < q <= maximum)`
abbrev pub keep_quantities : ℕ → List ℕ → List ℕ
keep_quantities maximum [] = []
keep_quantities maximum (q ∷ qs) =
    let rest = keep_quantities maximum qs in if ltb 0 q && leb q maximum then q ∷ rest else rest

unfoldable pub quantities_to_try : ℕ → ℕ → ℕ → List ℕ
unfolding insert_price
quantities_to_try lot child maximum = keep_quantities maximum (
    with_boundaries lot (multiples child child (ceil_div maximum child))
      (insert_price maximum (insert_price lot [])))

-- A purchase of a quantity at a limit, priced: its entry cash, and its edge if it is sold at the target.
abbrev pub with_edge : Instrument → String → ℕ → ℕ → ℕ → ℤ → List Opportunity
with_edge i reason quantity limit entry profit =
    if ltb_ℤ (pos 0) profit
    then record {
      instrument = i;
      quantity = quantity;
      limit_price = limit;
      edge = pos_part profit;
      entry = entry;
      reason = reason;
    }
      ∷ []
    else []

abbrev pub if_permitted : Allocation → Instrument → String → ℕ → ℕ → ℕ → ℤ → List Opportunity
if_permitted a i reason quantity limit entry sale =
    if permits a entry then with_edge i reason quantity limit entry (sale -ℤ pos entry) else []

-- The final search makes no check of the allocation here; its quantity passed the same one before.
unfoldable pub price_candidate :
    Instrument → String → Allocation → FeeSchedule → ℕ → ℕ → ℕ → ℕ → Result (List Opportunity)
price_candidate i reason a f child target limit quantity = do
  let children = children_of quantity child
  cash ← worst_case_entry_cash quantity limit children f
  let entry = reserve_cash cash
  sale ← conditional_sale_cash quantity target children f
  ok (if_permitted a i reason quantity limit entry sale)

-- A loop that adds what each round finds to a list.
unfoldable pub gather :
    {A : Type 0} → (A → Result (List Opportunity)) → List A → Result (List Opportunity)
gather g [] = ok []
gather g (x ∷ xs) = do found ← g x; more ← gather g xs; ok (found ++ more)

-- The key of `max`: the score, then the lower security identity, then the lower limit.
abbrev pub better : ℕ × Opportunity → ℕ × Opportunity → Bool
better (n, x) (m, y) =
    let left = x.edge * y.entry in
    let right = y.edge * x.entry in
    ltb right left
    || left == right
      && (ltb y.edge x.edge
          || x.edge == y.edge
            && (ltb y.quantity x.quantity
                || x.quantity == y.quantity
                  && (ltb n m || n == m && ltb x.limit_price y.limit_price)))

-- `max` keeps the first of several greatest elements.
unfoldable pub best_of : ℕ × Opportunity → List (ℕ × Opportunity) → ℕ × Opportunity
best_of x [] = x
best_of x (y ∷ ys) = best_of (if better y x then y else x) ys

unfoldable pub numbered : List Opportunity → Result (List (ℕ × Opportunity))
numbered [] = ok []
numbered (x ∷ xs) = do
  n ← security_number x.instrument.security_id
  rest ← numbered xs
  ok ((n, x) ∷ rest)

abbrev pub greatest : List (ℕ × Opportunity) → Option Opportunity
greatest [] = none
greatest (x ∷ xs) = some (best_of x xs).1

unfoldable pub choose : List Opportunity → Result (Option Opportunity)
choose xs = numbered xs >>= λ ys. ok (greatest ys)
