-- ===== src/Strategy/Worth.antt =====
-- What a priced candidate of dhan_cas_bot/strategy.py is worth.
use dhan_bot.Strategy.Search.{child_of}
use dhan_bot.Strategy.Sizing.{permitted_limit, children_of}
use dhan_bot.Domain.{Instrument}
use dhan_bot.Strategy.Candidates.{
  Opportunity, price_candidate, with_edge, gather, if_permitted, insert_price,
}
use dhan_bot.Risk.{
  Allocation, FeeSchedule, permits, worst_case_entry_cash, reserve_cash, conditional_sale_cash,
}
use dhan_bot.Prelude.{
  ◌>>=◌, zero, suc, negsuc, ◌≡◌, ◌<◌, All, List, [], ◌∷◌, ◌++◌, ok, true, false, Bool-cases, inl,
  inr, >>=-eq-ok, arith, ℕ, refl, String, ℤ, pos, suc, ◌-ℤ◌, negsuc, subst, Result, ltb_ℤ, ltb,
  ◌==◌,
}

-- A purchase in whole child orders that the allocation permits and whose sale at the target, all
-- charges paid, leaves the edge; its limit is below the target and permitted by the instrument.
pub record IsWorth (a : Allocation) (f : FeeSchedule) (target : ℕ) (o : Opportunity) : Type 0 where
  pub affordable : permits a o.entry ≡ true
  pub cost :
      (cash : ℕ) × (worst_case_entry_cash o.quantity o.limit_price
          (children_of o.quantity (child_of o.instrument))
          f
        ≡ ok cash)
      × (o.entry ≡ reserve_cash cash)
  pub profit :
      (sale : ℤ) × (conditional_sale_cash o.quantity target
          (children_of o.quantity (child_of o.instrument))
          f
        ≡ ok sale)
      × (sale -ℤ pos o.entry ≡ pos o.edge)
      × (0 < o.edge)
  pub permitted : permitted_limit o.instrument o.limit_price ≡ true

pub All-append {ℓ κ} :
    {A : Type ℓ} (P : A → Type κ) (xs ys : List A) → All P xs → All P ys → All P (xs ++ ys)
All-append P [] ys h k = k
All-append P (x ∷ xs) ys h k = (h.0, All-append P xs ys h.1 k)

with_edge-All :
    (P : Opportunity → Type 0) (i : Instrument) (why : String) (q limit entry : ℕ) (v : ℤ)
    → ((e : ℕ)
        → v ≡ pos e
        → 0 < e
        → P (record {
          instrument = i;
          quantity = q;
          limit_price = limit;
          edge = e;
          entry = entry;
          reason = why;
        }))
    → All P (with_edge i why q limit entry v)
with_edge-All P i why q limit entry (pos zero) h = tt
with_edge-All P i why q limit entry (pos (suc e)) h =
    let positive : ltb_ℤ (pos 0) (pos (suc e)) ≡ true = ground arith in
    rw positive (h (suc e) refl (omega arith), tt)
with_edge-All P i why q limit entry (negsuc e) h =
    let negative : ltb_ℤ (pos 0) (negsuc e) ≡ false = ground arith in rw negative tt

pub All-of_ok :
    (P : Opportunity → Type 0) {xs ys : List Opportunity} → ok xs ≡ ok ys → All P xs → All P ys
All-of_ok P h k = subst (All P) (ground (arith, h)) k

-- What holds of every find of a loop.
pub gather-All :
    {A : Type 0} (P : Opportunity → Type 0) (Q : A → Type 0) (g : A → Result (List Opportunity))
    (xs : List A) (found : List Opportunity)
    → ((x : A) (ys : List Opportunity) → Q x → g x ≡ ok ys → All P ys)
    → All Q xs
    → gather g xs ≡ ok found
    → All P found
unfolding gather
gather-All P Q g [] found each good h = All-of_ok P h tt
gather-All P Q g (x ∷ xs) found each good h =
    let (ys, e, k) = >>=-eq-ok (g x) (λ ys. gather g xs >>= λ zs. ok (ys ++ zs)) h in
    let (zs, e2, done) = >>=-eq-ok (gather g xs) (λ zs. ok (ys ++ zs)) k in
    All-of_ok P done
      (All-append P ys zs (each x ys good.0 e) (gather-All P Q g xs zs each good.1 e2))

module _ (a : Allocation) (f : FeeSchedule) where
  abbrev pub Priced : Instrument → ℕ → ℕ → Opportunity → Type 0
  Priced i target limit o = IsWorth a f target o × (o.instrument ≡ i) × (o.limit_price ≡ limit)

  if_permitted-Priced :
      (i : Instrument) (why : String) (target limit q cash : ℕ) (sale : ℤ)
      → permitted_limit i limit ≡ true
      → worst_case_entry_cash q limit (children_of q (child_of i)) f ≡ ok cash
      → conditional_sale_cash q target (children_of q (child_of i)) f ≡ ok sale
      → All (Priced i target limit) (if_permitted a i why q limit (reserve_cash cash) sale)
  if_permitted-Priced i why target limit q cash sale allowed e e2 =
      elim (Bool-cases (permits a (reserve_cash cash))) [
        | inr no_cash ↦ rw no_cash tt
        | inl fits ↦ rw fits (
            with_edge-All (Priced i target limit) i why q limit (reserve_cash cash)
              (sale -ℤ pos (reserve_cash cash))
              (λ edge p positive. (
                record {
                  affordable = fits;
                  cost = (cash, e, refl);
                  profit = (sale, e2, p, positive);
                  permitted = allowed;
                },
                refl,
                refl,
              )))
      ]

  pub price_candidate-Priced :
      (i : Instrument) (why : String) (target limit q : ℕ) (xs : List Opportunity)
      → permitted_limit i limit ≡ true
      → price_candidate i why a f (child_of i) target limit q ≡ ok xs
      → All (Priced i target limit) xs
  unfolding price_candidate
  price_candidate-Priced i why target limit q xs allowed h =
      let n = children_of q (child_of i) in
      let (cash, e, k) =
        >>=-eq-ok (worst_case_entry_cash q limit n f)
          (λ cash. conditional_sale_cash q target n f >>= λ sale.
            ok (if_permitted a i why q limit (reserve_cash cash) sale))
          h in
      let (sale, e2, done) =
        >>=-eq-ok (conditional_sale_cash q target n f)
          (λ sale. ok (if_permitted a i why q limit (reserve_cash cash) sale)) k in
      All-of_ok (Priced i target limit) done
        (if_permitted-Priced i why target limit q cash sale allowed e e2)

pub insert_price-All :
    (P : ℕ → Type 0) (p : ℕ) (ps : List ℕ) → P p → All P ps → All P (insert_price p ps)
unfolding insert_price
insert_price-All P p [] h k = (h, tt)
insert_price-All P p (q ∷ qs) h k = elim (Bool-cases (ltb p q)) [
  | inl first ↦ rw first (h, k)
  | inr later ↦ rw later (elim (Bool-cases (p == q)) [
    | inl same ↦ rw same k
    | inr apart ↦ rw apart (k.0, insert_price-All P p qs h k.1)
  ])
]

pub All-Unit : {A : Type 0} (xs : List A) → All (λ (x : A). Unit {0}) xs
All-Unit [] = tt
All-Unit (x ∷ xs) = (tt, All-Unit xs)

pub All-map :
    (P Q : Opportunity → Type 0)
    → ((o : Opportunity) → P o → Q o)
    → (xs : List Opportunity) → All P xs
    → All Q xs
All-map P Q h [] k = tt
All-map P Q h (x ∷ xs) k = (h x k.0, All-map P Q h xs k.1)
