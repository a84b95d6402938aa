-- ===== src/Feeds/Covers.antt =====
-- What the packets of any message are: its own bytes, in order, up to where the splitting ends.
use dhan_bot.Prelude.{
  ℕ, zero, suc, ◌≤◌, ◌<◌, ◌≡◌, ◌≢◌, refl, ap, true, false, ◌||◌, List, [], ◌∷◌, ◌++◌, ltb, ◌==◌,
  length, take, drop, All, Bool-cases, inl, inr, arith, ◌∙◌, length-drop,
}
use mathlib.Core.List.{append_assoc, append-nil}
use dhan_bot.Feeds.Frames.{
  Ending, done, out_of_fuel, byte_at, declared, is_startup, disconnect_code, yield_before, split,
  packets, truncated_header, invalid_length, disconnected,
}
use dhan_bot.Feeds.Split.{concat, startup_facts}

-- The message is what was yielded and a part that is left; nothing is left at an end without an
-- error, and the loop does not run out of fuel.
pub record Covers (payload : List ℕ) (out : List (List ℕ) × Ending) : Type 0 where
  pub left : List ℕ
  pub whole : concat out.0 ++ left ≡ payload
  pub ended : out.1 ≢ out_of_fuel
  pub headed : All (λ packet. 8 ≤ length packet) out.0
  pub all_used : out.1 ≡ done → left ≡ []

length-take : (n : ℕ) (xs : List ℕ) → n ≤ length xs → length (take n xs) ≡ n
length-take zero xs h = refl
length-take (suc n) [] h = absurd (omega arith)
length-take (suc n) (x ∷ xs) h = ap suc (length-take n xs (omega arith))

pub take-drop {ℓ} : {A : Type ℓ} (n : ℕ) (xs : List A) → take n xs ++ drop n xs ≡ xs
take-drop zero xs = refl
take-drop (suc n) [] = refl
take-drop (suc n) (x ∷ xs) = ap (λ ys. x ∷ ys) (take-drop n xs)

stop-Covers :
    (rest : List ℕ) (ending : Ending)
    → ending ≢ out_of_fuel
    → (ending ≡ done → rest ≡ [])
    → Covers rest ([], ending)
stop-Covers rest ending h k = record {
  left = rest;
  whole = refl;
  ended = h;
  headed = tt;
  all_used = k;
}

empty_of_length : (xs : List ℕ) → (length xs == 0) ≡ true → xs ≡ []
empty_of_length [] h = refl
empty_of_length (x ∷ xs) h = ground arith

next-Covers :
    (n : ℕ) (rest : List ℕ) (out : List (List ℕ) × Ending)
    → 8 ≤ n
    → n ≤ length rest
    → Covers (drop n rest) out
    → Covers rest (yield_before (take n rest) out)
next-Covers n rest out low fits c = record {
  left = c.left;
  whole =
      append_assoc (take n rest) (concat out.0) c.left
      ∙ (ap (λ t. take n rest ++ t) c.whole ∙ take-drop n rest);
  ended = c.ended;
  headed = (omega (arith, length-take n rest fits), c.headed);
  all_used = c.all_used;
}

whole-Covers : (payload : List ℕ) → 8 ≤ length payload → Covers payload (payload ∷ [], done)
whole-Covers payload h = record {
  left = [];
  whole = append_assoc payload [] [] ∙ append-nil payload;
  ended = cc;
  headed = (h, tt);
  all_used = λ e. refl;
}

sized :
    (rest : List ℕ)
    → (ltb (declared rest) 8 || ltb (length rest) (declared rest)) ≡ false
    → (8 ≤ declared rest) × (declared rest ≤ length rest)
sized rest e = (ground arith, ground arith)

split-Covers : (fuel : ℕ) (rest : List ℕ) → length rest < fuel → Covers rest (split fuel rest)
unfolding split
split-Covers zero rest h = absurd (omega arith)
split-Covers (suc fuel) rest h = elim (Bool-cases (length rest == 0)) [
  | inl e ↦ rw e (stop-Covers rest done (cc) (λ q. empty_of_length rest e))
  | inr e ↦ rw e (elim (Bool-cases (ltb (length rest) 8)) [
    | inl e1 ↦ rw e1 (stop-Covers rest truncated_header (cc) (cc))
    | inr e1 ↦
        rw e1 (elim (Bool-cases (ltb (declared rest) 8 || ltb (length rest) (declared rest))) [
          | inl e2 ↦ rw e2 (stop-Covers rest invalid_length (cc) (cc))
          | inr e2 ↦ rw e2 (elim (Bool-cases (byte_at 0 (take (declared rest) rest) == 50)) [
            | inl e3 ↦ rw e3 (
                stop-Covers rest (disconnected (disconnect_code (take (declared rest) rest))) (cc)
                  (cc))
            | inr e3 ↦ rw e3 (
                next-Covers (declared rest) rest (split fuel (drop (declared rest) rest))
                  (sized rest e2).0 (sized rest e2).1
                  (split-Covers fuel (drop (declared rest) rest) (
                    omega (
                      arith,
                      h,
                      (sized rest e2).0,
                      (sized rest e2).1,
                      length-drop (declared rest) rest,
                    ))))
          ])
        ])
  ])
]

-- Any message is the packets that it is split into, one behind the other, and a part that is left.
-- Each packet has at least its eight bytes of header; nothing is left where the splitting ends
-- without an error; and the loop always ends by itself, its fuel being enough.
pub packets-Covers : (payload : List ℕ) → Covers payload (packets payload)
unfolding packets
packets-Covers payload = elim (Bool-cases (is_startup payload)) [
  | inl startup ↦
      rw startup (whole-Covers payload (omega (arith, (startup_facts payload startup).0)))
  | inr other ↦ rw other (split-Covers (suc (length payload)) payload (omega arith))
]
