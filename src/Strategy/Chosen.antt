-- ===== src/Strategy/Chosen.antt =====
-- The choice of dhan_cas_bot/strategy.py among candidates is one of them.

use dhan_bot.Strategy.Candidates.{
  Opportunity, numbered, greatest, best_of, choose, better, security_number,
}
use dhan_bot.Prelude.{
  ◌>>=◌, ◌≡◌, All, List, [], ◌∷◌, ok, some, Bool-cases, inl, inr, >>=-eq-ok, arith, ℕ, subst,
}

-- What `max` returns is one of the elements.
best_of-All :
    (P : Opportunity → Type 0) (x : ℕ × Opportunity) (xs : List (ℕ × Opportunity))
    → P x.1
    → All (λ (y : ℕ × Opportunity). P y.1) xs
    → P (best_of x xs).1
unfolding best_of
best_of-All P x [] h k = h
best_of-All P x (y ∷ ys) h k = elim (Bool-cases (better y x)) [
  | inl wins ↦ rw (wins, best_of) (best_of-All P y ys k.0 k.1)
  | inr loses ↦ rw (loses, best_of) (best_of-All P x ys h k.1)
]

numbered-All :
    (P : Opportunity → Type 0) (xs : List Opportunity) (ys : List (ℕ × Opportunity))
    → All P xs
    → numbered xs ≡ ok ys
    → All (λ (y : ℕ × Opportunity). P y.1) ys
unfolding numbered
numbered-All P [] ys h e =
    let same : [] ≡ ys = ground (arith, e) in subst (All (λ (y : ℕ × Opportunity). P y.1)) same tt
numbered-All P (x ∷ xs) ys h e =
    let number = security_number x.instrument.security_id in
    let (n, _, k) = >>=-eq-ok number (λ n. numbered xs >>= λ rest. ok ((n, x) ∷ rest)) e in
    let (rest, e2, done) = >>=-eq-ok (numbered xs) (λ rest. ok ((n, x) ∷ rest)) k in
    let same : (n, x) ∷ rest ≡ ys = ground (arith, done) in
    subst (All (λ (y : ℕ × Opportunity). P y.1)) same (h.0, numbered-All P xs rest h.1 e2)

greatest-All :
    (P : Opportunity → Type 0) (ys : List (ℕ × Opportunity)) (o : Opportunity)
    → All (λ (y : ℕ × Opportunity). P y.1) ys
    → greatest ys ≡ some o
    → P o
greatest-All P [] o h e = absurd (ground (arith, e))
greatest-All P (y ∷ ys) o h e = subst P (ground (arith, e)) (best_of-All P y ys h.0 h.1)

pub choose-All :
    (P : Opportunity → Type 0) (xs : List Opportunity) (o : Opportunity)
    → All P xs
    → choose xs ≡ ok (some o)
    → P o
unfolding choose
choose-All P xs o h e =
    let (ys, e2, done) = >>=-eq-ok (numbered xs) (λ ys. ok (greatest ys)) e in
    greatest-All P ys o (numbered-All P xs ys h e2) (ground (arith, done))
