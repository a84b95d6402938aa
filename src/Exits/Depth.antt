-- ===== src/Exits/Depth.antt =====
-- `executable_sale_units` of dhan_cas_bot/exits.py against the depth of the book, unit by unit.
use dhan_bot.Prelude.{
  ℕ, zero, suc, ◌-◌, ◌<◌, ◌≡◌, refl, arith, min, List, [], ◌∷◌, ◌++◌, All, take, Bool-cases, ap,
  ◌==◌, inl, leb, inr, false,
}
use dhan_bot.Domain.{Level, OptionBook}
use dhan_bot.Exits.Sale.{sale_slices, executable_sale_units}

abbrev replicate : ℕ → ℕ → List ℕ
replicate zero p = []
replicate (suc n) p = p ∷ replicate n p

-- The price of each unit of the slices, and of each unit that the levels offer, best level first.
abbrev pub prices_of : List (ℕ × ℕ) → List ℕ
prices_of [] = []
prices_of ((u, p) ∷ ss) = replicate u p ++ prices_of ss

abbrev pub offered : List Level → List ℕ
offered [] = []
offered (l ∷ ls) = replicate l.quantity l.price ++ offered ls

take-replicate :
    (q n p : ℕ) (rest : List ℕ)
    → take q (replicate n p ++ rest) ≡ replicate (min q n) p ++ take (q - n) rest
take-replicate zero n p rest =
    let e : min 0 n ≡ 0 = omega arith in let z : 0 - n ≡ 0 = omega arith in rw (e, z)
take-replicate (suc q) zero p rest =
    let e : min (suc q) 0 ≡ 0 = omega arith in let z : suc q - 0 ≡ suc q = omega arith in rw (e, z)
take-replicate (suc q) (suc n) p rest =
    let e : min (suc q) (suc n) ≡ suc (min q n) = omega arith in
    let z : suc q - suc n ≡ q - n = omega arith in
    rw (e, z) (ap (λ t. p ∷ t) (take-replicate q n p rest))

take-nil : (q : ℕ) → take {A = ℕ} q [] ≡ []
take-nil zero = refl
take-nil (suc q) = refl

prices-sale_slices : (q : ℕ) (ls : List Level) → prices_of (sale_slices q ls) ≡ take q (offered ls)
unfolding sale_slices
prices-sale_slices q [] = rw (take-nil q)
prices-sale_slices zero (l ∷ ls) = refl
prices-sale_slices (suc q) (l ∷ ls) =
    let n = min (suc q) l.quantity in
    let d : suc q - l.quantity ≡ suc q - n = omega arith in
    let held : leb (suc q) 0 ≡ false = ground arith in
    let ih = prices-sale_slices (suc q - n) ls in
    rw (take-replicate (suc q) l.quantity l.price (offered ls), d)
      (elim (Bool-cases (n == 0)) [
        | inl e ↦ let z : n ≡ 0 = ground arith in rw (held, e) (rw z (rw z at ih))
        | inr e ↦ rw (held, e) (ap (λ t. replicate n l.price ++ t) ih)
      ])

slices_pos : (q : ℕ) (ls : List Level) → All (λ (s : ℕ × ℕ). 0 < s.0) (sale_slices q ls)
unfolding sale_slices
slices_pos q [] = tt
slices_pos q (l ∷ ls) = ground (arith, slices_pos (q - min q l.quantity) ls)

-- The slices hold at least one unit each, and unit by unit they have the prices of the first units
-- that the bids offer, as many as the held quantity or, if the bids offer fewer, all of them:
-- never the best bid for the whole quantity.
pub executable_sale_units_prices :
    (book : OptionBook) (quantity : ℕ)
    → (prices_of (executable_sale_units book quantity) ≡ take quantity (offered book.bids))
      × All (λ (s : ℕ × ℕ). 0 < s.0) (executable_sale_units book quantity)
unfolding executable_sale_units
executable_sale_units_prices book zero = (refl, tt)
executable_sale_units_prices book (suc q) =
    let held : leb (suc q) 0 ≡ false = ground arith in
    rw held (prices-sale_slices (suc q) book.bids, slices_pos (suc q) book.bids)
