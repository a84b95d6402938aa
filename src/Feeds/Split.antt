-- ===== src/Feeds/Split.antt =====
-- What the splitting of a message into packets yields.
use dhan_bot.Prelude.{
  ℕ, zero, suc, ◌+◌, ◌≤◌, ◌<◌, ◌≡◌, refl, ap, Bool, true, false, not, ◌||◌, List, [], ◌∷◌, ◌++◌,
  ltb, ◌==◌, length, take, drop, any, All, Bool-cases, inl, inr, arith, length-append, ◌∙◌,
}
use dhan_bot.Feeds.Frames.{
  done, byte_at, declared, is_set, is_startup, yield_before, split, packets,
}

-- A packet that the loop passes on whole: its header is there and declares its length, and it does
-- not tell of a disconnection.
pub record IsFrame (f : List ℕ) : Type 0 where
  pub header : 8 ≤ length f
  pub sized : declared f ≡ length f
  pub live : (byte_at 0 f == 50) ≡ false

abbrev pub concat : List (List ℕ) → List ℕ
concat [] = []
concat (f ∷ fs) = f ++ concat fs

take-append : (f rest : List ℕ) → take (length f) (f ++ rest) ≡ f
take-append [] rest = refl
take-append (b ∷ f) rest = rw (take-append f rest)

drop-append : (f rest : List ℕ) → drop (length f) (f ++ rest) ≡ rest
drop-append [] rest = refl
drop-append (b ∷ f) rest = drop-append f rest

or_false : (a : Bool) {b : Bool} → (a || b) ≡ false → b ≡ false
or_false a h = ground arith

-- The header of a frame is read from the frame alone.
declared-append : (f rest : List ℕ) → 8 ≤ length f → declared (f ++ rest) ≡ declared f
declared-append [] rest h = absurd (omega arith)
declared-append (a ∷ []) rest h = absurd (omega arith)
declared-append (a ∷ b ∷ []) rest h = absurd (omega arith)
declared-append (a ∷ b ∷ c ∷ f) rest h = refl

byte_at-append : (f rest : List ℕ) → 8 ≤ length f → byte_at 0 (f ++ rest) ≡ byte_at 0 f
byte_at-append [] rest h = absurd (omega arith)
byte_at-append (a ∷ f) rest h = refl

pub split-frame :
    (fuel : ℕ) (f rest : List ℕ)
    → IsFrame f
    → split (suc fuel) (f ++ rest) ≡ yield_before f (split fuel rest)
unfolding split
split-frame fuel f rest h =
    let size : declared (f ++ rest) ≡ length f = declared-append f rest h.header ∙ h.sized in
    let enough : 8 ≤ length f = h.header in
    let some_left : (length f + length rest == 0) ≡ false = ground arith in
    let with_header : ltb (length f + length rest) 8 ≡ false = ground arith in
    let not_short : ltb (length f) 8 ≡ false = ground arith in
    let not_over : ltb (length f + length rest) (length f) ≡ false = ground arith in
    rw (
      size,
      take-append f rest,
      drop-append f rest,
      length-append f rest,
      some_left,
      with_header,
      not_short,
      not_over,
      h.live,
    )

pub split-concat :
    (fuel : ℕ) (fs : List (List ℕ))
    → All IsFrame fs
    → length (concat fs) < fuel
    → split fuel (concat fs) ≡ (fs, done)
split-concat zero fs h enough = absurd (omega arith)
split-concat (suc fuel) [] h enough = unfold split in refl
split-concat (suc fuel) (f ∷ fs) h enough =
    let size = length-append f (concat fs) in
    let header : 8 ≤ length f = h.0.header in
    let rest = split-concat fuel fs h.1 (omega (arith, size)) in
    split-frame fuel f (concat fs) h.0 ∙ ap (yield_before f) rest

-- Bytes of which none is set, and what stands behind them.
any_set-drop :
    (n : ℕ) (xs ys : List ℕ)
    → n ≤ length xs
    → any is_set (drop n (xs ++ ys)) ≡ false
    → any is_set ys ≡ false
any_set-drop zero [] ys le h = h
any_set-drop zero (x ∷ xs) ys le h = any_set-drop zero xs ys (omega arith) (or_false (is_set x) h)
any_set-drop (suc n) [] ys le h = absurd (omega arith)
any_set-drop (suc n) (x ∷ xs) ys le h = any_set-drop n xs ys (omega arith) h

-- Zeros declare no length, so that no frame starts with them.
zeros_declare : (f rest : List ℕ) → IsFrame f → any is_set (f ++ rest) ≡ false → ⊥
zeros_declare [] rest h z = let e : 8 ≤ length {A = ℕ} [] = h.header in absurd (omega arith)
zeros_declare (a ∷ []) rest h z = let e : 8 ≤ length (a ∷ []) = h.header in absurd (omega arith)
zeros_declare (a ∷ b ∷ []) rest h z =
    let e : 8 ≤ length (a ∷ b ∷ []) = h.header in absurd (omega arith)
zeros_declare (a ∷ b ∷ c ∷ f) rest h z =
    let e : 8 ≤ length (a ∷ b ∷ c ∷ f) = h.header in
    let size : declared (a ∷ b ∷ c ∷ f) ≡ length (a ∷ b ∷ c ∷ f) = h.sized in
    let no_b : (not (b == 0)) ≡ false = ground arith in
    let no_c : (not (c == 0)) ≡ false = ground arith in ground arith

pub startup_facts :
    (payload : List ℕ)
    → is_startup payload ≡ true
    → (length payload ≡ 162) × (declared payload ≡ 70) × (any is_set (drop 62 payload) ≡ false)
unfolding is_startup
startup_facts payload h = (ground arith, ground arith, ground arith)

-- The snapshot of the start is no sequence of frames: after the 70 bytes that it declares come zeros.
not_startup : (fs : List (List ℕ)) → All IsFrame fs → is_startup (concat fs) ≡ true → ⊥
not_startup [] h e = unfold is_startup in cc
not_startup (f ∷ []) h e =
    let facts = startup_facts (f ++ []) e in
    let header : 8 ≤ length f = h.0.header in
    let sized : declared f ≡ length f = h.0.sized in
    omega (arith, facts.0, facts.1, length-append f [], declared-append f [] header, sized)
not_startup (f ∷ g ∷ fs) h e =
    let facts = startup_facts (f ++ (g ++ concat fs)) e in
    let header : 8 ≤ length f = h.0.header in
    let sized : declared f ≡ length f = h.0.sized in
    let size = declared-append f (g ++ concat fs) header in
    let long : 62 ≤ length f = omega (arith, facts.1, size, sized) in
    zeros_declare g (concat fs) h.1.0 (any_set-drop 62 f (g ++ concat fs) long facts.2)

-- Packets that are put one behind the other in a message are split into the same packets again,
-- and the splitting ends without an error, if each of them has a header that declares its own
-- length and is no notice of a disconnection.
pub packets-concat : (fs : List (List ℕ)) → All IsFrame fs → packets (concat fs) ≡ (fs, done)
unfolding packets
packets-concat fs h = elim (Bool-cases (is_startup (concat fs))) [
  | inl startup ↦ absurd (not_startup fs h startup)
  | inr other ↦ rw other (split-concat (suc (length (concat fs))) fs h (omega arith))
]
