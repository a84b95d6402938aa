-- ===== src/Engine/Tracked.antt =====
-- What the observations and the streaks of dhan_cas_bot/engine.py are at every moment of a session.
use dhan_bot.Ledger.{lookup}
use dhan_bot.Strategy.Median.{same_identity_refl, same_identity-eq}
use dhan_bot.Domain.{OptionBook, IndexObservation}
use dhan_bot.Engine.Signals.{
  seen_before, latest, lags, remember, extend_streaks, streak_of, identity_for, accept, is_type,
  direction,
}
use dhan_bot.Strategy.{Identity, Observed, same_identity}
use dhan_bot.Engine.State.{Codec, Session}
use dhan_bot.Engine.Suffix.{
  IsSuffix, All-imp, All-snoc, last_n-append, nil-IsSuffix, length-last_n, last_n-IsSuffix,
  snoc-IsSuffix,
}
use dhan_bot.Prelude.{
  refl, zero, suc, [], ℕ, List, String, All, ◌≡◌, ◌∷◌, drop, ◌++◌, last_n, map, true, false, length,
  ◌<◌, suc, ◌⊎◌, some, Bool-cases, ◌≤◌, arith, ap, inr, ltb, inl, ◌∙◌, ◌-◌, length-append,
  length-drop, str_eq, ◌&&◌, All-drop,
}

-- No two observations have one identity.
abbrev pub Distinct : List Observed → Type 0
Distinct [] = Unit {0}
Distinct (x ∷ xs) = All (λ (y : Observed). same_identity y.1 x.1 ≡ false) xs × Distinct xs

-- The book of a security lags an index value.
abbrev pub Lagging : ℕ → String → List (String × OptionBook) → Type 0
Lagging v k [] = ⊥
Lagging v k ((j, b) ∷ books) = ((j ≡ k) × (lags v b ≡ true)) ⊎ Lagging v k books

-- A streak is a run of the latest observations, and its book lags the last of them.
abbrev pub IsStreak : List Observed → List (String × OptionBook) → String × List Observed → Type 0
IsStreak observations books (k, h) =
    IsSuffix h observations
    × (0 < length h)
    × (v : ℕ) × (latest observations ≡ some v)
    × Lagging v k books

pub record IsTracked (observations : List Observed) (identities : List Identity)
    (streaks : List (String × List Observed)) (books : List (String × OptionBook)) : Type 0 where
  pub few : length observations ≤ 24
  pub distinct : Distinct observations
  pub remembered : All (λ (x : Observed). seen_before x.1 identities ≡ true) observations
  pub runs : All (IsStreak observations books) streaks

abbrev pub OfSession : Session → Type 0
OfSession e = IsTracked e.observations e.identities e.streaks e.books

-- An identity that was not seen is none of those remembered.
unseen :
    (id : Identity) (ids : List Identity) (xs : List Observed)
    → seen_before id ids ≡ false
    → All (λ (x : Observed). seen_before x.1 ids ≡ true) xs
    → All (λ (x : Observed). same_identity id x.1 ≡ false) xs
unseen id ids [] h k = tt
unseen id ids (x ∷ xs) h k = (
  elim (Bool-cases (same_identity id x.1)) [
    | inr apart ↦ apart
    | inl same ↦
        let e = same_identity-eq id x.1 same in
        absurd (let seen_it = rw (← e) at k.0 in ground (arith, seen_it, h))
  ],
  unseen id ids xs h k.1,
)

snoc-Distinct :
    (xs : List Observed) (x : Observed)
    → Distinct xs
    → All (λ (y : Observed). same_identity x.1 y.1 ≡ false) xs
    → Distinct (xs ++ (x ∷ []))
snoc-Distinct [] x h k = (tt, tt)
snoc-Distinct (y ∷ ys) x h k = (
  All-snoc (λ (z : Observed). same_identity z.1 y.1 ≡ false) ys x h.0 k.0,
  snoc-Distinct ys x h.1 k.1,
)

drop-Distinct : (n : ℕ) (xs : List Observed) → Distinct xs → Distinct (drop n xs)
drop-Distinct zero xs h = h
drop-Distinct (suc n) [] h = tt
drop-Distinct (suc n) (x ∷ xs) h = drop-Distinct n xs h.1

seen_before-own :
    (xs : List Observed)
    → All (λ (x : Observed). seen_before x.1 (map (λ (y : Observed). y.1) xs) ≡ true) xs
unfolding seen_before
seen_before-own [] = tt
seen_before-own (x ∷ xs) = (
  ground (arith, same_identity_refl x.1),
  All-imp (λ (y : Observed). seen_before y.1 (map (λ (z : Observed). z.1) xs) ≡ true)
      (λ (y : Observed). seen_before y.1 (x.1 ∷ map (λ (z : Observed). z.1) xs) ≡ true)
      (λ y h. ground (arith, h)) xs (seen_before-own xs),
)

seen_before-more :
    (id : Identity) (ids : List Identity) (xs : List Observed)
    → All (λ (x : Observed). seen_before x.1 ids ≡ true) xs
    → All (λ (x : Observed). seen_before x.1 (id ∷ ids) ≡ true) xs
unfolding seen_before
seen_before-more id ids xs h =
    All-imp (λ (x : Observed). seen_before x.1 ids ≡ true)
      (λ (x : Observed). seen_before x.1 (id ∷ ids) ≡ true) (λ x k. ground (arith, k)) xs h

seen_before-remember :
    (v : ℕ) (id : Identity) (xs : List Observed) (ids : List Identity)
    → All (λ (x : Observed). seen_before x.1 ids ≡ true) xs
    → All (λ (x : Observed). seen_before x.1 (remember id xs ids) ≡ true) (xs ++ ((v, id) ∷ []))
unfolding seen_before
seen_before-remember v id xs ids h = elim (Bool-cases (ltb 10000 (length (id ∷ ids)))) [
  | inl full ↦ rw full (
      All-snoc (λ (x : Observed). seen_before x.1 (id ∷ map (λ (y : Observed). y.1) xs) ≡ true) xs
        (v, id) (seen_before-more id (map (λ (y : Observed). y.1) xs) xs (seen_before-own xs))
        (ground (arith, same_identity_refl id)))
  | inr room ↦ rw room (
      All-snoc (λ (x : Observed). seen_before x.1 (id ∷ ids) ≡ true) xs (v, id)
        (seen_before-more id ids xs h) (ground (arith, same_identity_refl id)))
]

latest-append : (xs : List Observed) (x : Observed) → latest (xs ++ (x ∷ [])) ≡ some x.0
latest-append [] x = refl
latest-append (y ∷ []) x = refl
latest-append (y ∷ z ∷ zs) x = latest-append (z ∷ zs) x

latest-last_n : (xs : List Observed) (x : Observed) → latest (last_n 24 (xs ++ (x ∷ []))) ≡ some x.0
latest-last_n xs x =
    ap (λ ys. latest ys) (last_n-append 24 xs (x ∷ []))
    ∙ latest-append (drop (length (xs ++ (x ∷ [])) - 24) xs) x

streak_of-IsSuffix :
    (k : String) (observations : List Observed) (books : List (String × OptionBook))
    (streaks : List (String × List Observed))
    → All (IsStreak observations books) streaks
    → IsSuffix (streak_of k streaks) observations
unfolding lookup
streak_of-IsSuffix k observations books [] h = nil-IsSuffix observations
streak_of-IsSuffix k observations books ((j, run) ∷ streaks) h = elim (Bool-cases (str_eq j k)) [
  | inl here ↦ rw (here, streak_of) h.0.0
  | inr there ↦ rw (there, streak_of) (streak_of-IsSuffix k observations books streaks h.1)
]

snoc-length : (x : Observed) (h : List Observed) → 0 < length (last_n 24 (h ++ (x ∷ [])))
snoc-length x h =
    omega
      (arith, length-append h (x ∷ []), length-drop (length (h ++ (x ∷ [])) - 24) (h ++ (x ∷ [])))

add_book :
    (observations : List Observed) (b : String × OptionBook) (books : List (String × OptionBook))
    (s : String × List Observed)
    → IsStreak observations books s
    → IsStreak observations (b ∷ books) s
add_book observations b books s (suffix, some_run, v, e, lag) = (suffix, some_run, v, e, inr lag)

-- The streaks after an observation are runs of the observations with it.
extend_streaks-IsStreak :
    (reference : ℕ) (x : Observed) (observations : List Observed)
    (streaks : List (String × List Observed)) (old books : List (String × OptionBook))
    → All (IsStreak observations old) streaks
    → All
        (IsStreak (last_n 24 (observations ++ (x ∷ []))) books)
        (extend_streaks reference x streaks books)
unfolding extend_streaks
extend_streaks-IsStreak reference x observations streaks old [] h = tt
extend_streaks-IsStreak reference x observations streaks old ((k, b) ∷ books) h =
    let grown = last_n 24 (observations ++ (x ∷ [])) in
    let run = streak_of k streaks in
    let rest =
      All-imp (IsStreak grown books) (IsStreak grown ((k, b) ∷ books)) (add_book grown (k, b) books)
        (extend_streaks reference x streaks books)
        (extend_streaks-IsStreak reference x observations streaks old books h) in
    elim (Bool-cases (is_type (direction reference x.0) b.instrument.option_type && lags x.0 b)) [
      | inr passed ↦ rw passed rest
      | inl qualifies ↦ rw qualifies (
        (
          last_n-IsSuffix 24 (run ++ (x ∷ [])) (observations ++ (x ∷ []))
              (snoc-IsSuffix x run observations (streak_of-IsSuffix k observations old streaks h)),
          snoc-length x run,
          x.0,
          latest-last_n observations x,
          inl (refl, ground arith),
        ),
        rest,
      )
    ]

pub accept-IsTracked :
    (c : Codec) (x : IndexObservation) (v : ℕ) (e : Session)
    → seen_before (identity_for x) e.identities ≡ false
    → OfSession e
    → OfSession (accept c x v e)
unfolding accept
accept-IsTracked c x v e new h =
    let id = identity_for x in
    let grown = e.observations ++ ((x.value, id) ∷ []) in
    record {
      few = length-last_n 24 grown;
      distinct = drop-Distinct (length grown - 24) grown (
          snoc-Distinct e.observations (x.value, id) h.distinct
            (unseen id e.identities e.observations new h.remembered));
      remembered =
          All-drop
            (λ (y : Observed). seen_before y.1 (remember id e.observations e.identities) ≡ true)
            (length grown - 24) grown
            (seen_before-remember x.value id e.observations e.identities h.remembered);
      runs =
          extend_streaks-IsStreak v (x.value, id) e.observations e.streaks e.books e.books h.runs;
    }
