-- ===== src/Engine/Suffix.antt =====
-- The ends of lists, for the observations that dhan_cas_bot/engine.py keeps.
use dhan_bot.Prelude.{
  ℕ, zero, suc, ◌-◌, ◌≡◌, ◌≤◌, refl, ap, ◌∙◌, sym, arith, List, [], ◌∷◌, ◌++◌, length, drop, last_n,
  All, length-drop, length-append,
}

module _ {ℓ} {A : Type ℓ} where
  abbrev pub IsSuffix : List A → List A → Type ℓ
  IsSuffix s xs = (before : List A) × (xs ≡ before ++ s)

  append_nil : (xs : List A) → xs ++ [] ≡ xs
  append_nil [] = refl
  append_nil (x ∷ xs) = ap (λ ys. x ∷ ys) (append_nil xs)

  pub append_assoc : (xs ys zs : List A) → (xs ++ ys) ++ zs ≡ xs ++ (ys ++ zs)
  append_assoc [] ys zs = refl
  append_assoc (x ∷ xs) ys zs = ap (λ us. x ∷ us) (append_assoc xs ys zs)

  drop-append : (n : ℕ) (xs ys : List A) → drop n (xs ++ ys) ≡ drop n xs ++ drop (n - length xs) ys
  drop-append zero xs ys =
      let none_left : 0 - length xs ≡ 0 = omega arith in sym (ap (λ j. xs ++ drop j ys) none_left)
  drop-append (suc n) [] ys =
      let all_left : suc n - 0 ≡ suc n = omega arith in sym (ap (λ j. drop j ys) all_left)
  drop-append (suc n) (x ∷ xs) ys =
      let one_less : suc n - length (x ∷ xs) ≡ n - length xs = omega arith in
      drop-append n xs ys ∙ sym (ap (λ j. drop n xs ++ drop j ys) one_less)

  -- The end of a list that ends in `s` is the end of `s`, or more.
  pub last_n-append :
      (n : ℕ) (xs s : List A) → last_n n (xs ++ s) ≡ drop (length (xs ++ s) - n) xs ++ last_n n s
  last_n-append n xs s =
      let k = length (xs ++ s) - n in
      let shift : k - length xs ≡ length s - n = omega (arith, length-append xs s) in
      drop-append k xs s ∙ ap (λ j. drop k xs ++ drop j s) shift

  pub nil-IsSuffix : (xs : List A) → IsSuffix [] xs
  nil-IsSuffix xs = (xs, sym (append_nil xs))

  pub snoc-IsSuffix :
      (x : A) (s xs : List A) → IsSuffix s xs → IsSuffix (s ++ (x ∷ [])) (xs ++ (x ∷ []))
  snoc-IsSuffix x s xs (before, e) =
      (before, ap (λ ys. ys ++ (x ∷ [])) e ∙ append_assoc before s (x ∷ []))

  pub last_n-IsSuffix :
      (n : ℕ) (s xs : List A) → IsSuffix s xs → IsSuffix (last_n n s) (last_n n xs)
  last_n-IsSuffix n s xs (before, e) =
      (drop (length (before ++ s) - n) before, ap (λ ys. last_n n ys) e ∙ last_n-append n before s)

  pub length-last_n : (n : ℕ) (xs : List A) → length (last_n n xs) ≤ n
  length-last_n n xs = omega (arith, length-drop (length xs - n) xs)

  pub All-snoc {κ} :
      (P : A → Type κ) (xs : List A) (x : A) → All P xs → P x → All P (xs ++ (x ∷ []))
  All-snoc P [] x h k = (k, tt)
  All-snoc P (y ∷ ys) x h k = (h.0, All-snoc P ys x h.1 k)

  pub All-imp {κ μ} :
      (P : A → Type κ) (Q : A → Type μ)
      → ((x : A) → P x → Q x)
      → (xs : List A) → All P xs
      → All Q xs
  All-imp P Q f [] h = tt
  All-imp P Q f (x ∷ xs) h = (f x h.0, All-imp P Q f xs h.1)
