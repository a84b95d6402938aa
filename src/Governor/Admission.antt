-- ===== src/Governor/Admission.antt =====
-- What the governor of dhan_cas_bot/governor.py admits.
use dhan_bot.Prelude.{
  ℕ, zero, suc, ◌+◌, ◌≤◌, ◌<◌, ◌≡◌, ◌↔◌, refl, arith, List, [], ◌∷◌, ◌++◌, All, ok, err, inl, inr,
  Bool-cases, ltb, leb, false, Result, sym, ◌∙◌, subst,
}
use dhan_bot.Governor.Windows.{
  Limit, horizon, drop_old, recent, check_limits, repeat, append_if_ok, admit,
}

-- Events older than a longer window do not count in a shorter one.
recent-drop_old :
    (now seconds longest : ℕ) (es : List ℕ)
    → seconds ≤ longest
    → recent now seconds (drop_old now longest es) ≡ recent now seconds es
unfolding recent drop_old
recent-drop_old now seconds longest [] h = refl
recent-drop_old now seconds longest (e ∷ es) h =
    ground (arith, recent-drop_old now seconds longest es h)

recent-append :
    (now seconds : ℕ) (es fs : List ℕ)
    → recent now seconds (es ++ fs) ≡ recent now seconds es + recent now seconds fs
unfolding recent
recent-append now seconds [] fs = omega arith
recent-append now seconds (e ∷ es) fs = ground (arith, recent-append now seconds es fs)

recent-repeat : (now seconds n : ℕ) → recent now seconds (repeat n now) ≤ n
unfolding recent
recent-repeat now seconds zero = omega arith
recent-repeat now seconds (suc n) = ground (arith, recent-repeat now seconds n)

-- Every window of the limits has room for so many more events.
abbrev pub HasRoomFor : ℕ → ℕ → List ℕ → List Limit → Type 0
HasRoomFor now n es = All (λ (l : Limit). recent now l.seconds es + n ≤ l.count)

abbrev WithinHorizon : ℕ → List Limit → Type 0
WithinHorizon h = All (λ (l : Limit). l.seconds ≤ h)

check_limits_iff :
    (now n h : ℕ) (es : List ℕ) (ls : List Limit)
    → WithinHorizon h ls
    → (check_limits now n (drop_old now h es) ls ≡ ok tt) ↔ HasRoomFor now n es ls
unfolding check_limits
check_limits_iff now n h es [] w = (λ e. tt, λ e. refl)
check_limits_iff now n h es (l ∷ ls) w =
    let rest = check_limits_iff now n h es ls w.1 in
    let same = recent-drop_old now l.seconds h es w.0 in
    elim (Bool-cases (ltb l.count (recent now l.seconds (drop_old now h es) + n))) [
      | inl full ↦ (
        λ e. absurd (let k = rw full at e in ground (arith, k)),
        λ e. absurd (ground (arith, same)),
      )
      | inr free ↦ (λ e. (ground (arith, same), rest.0 (rw free at e)), λ e. rw free (rest.1 e.1))
    ]

within_more : (h k : ℕ) (ls : List Limit) → h ≤ k → WithinHorizon h ls → WithinHorizon k ls
within_more h k [] le w = tt
within_more h k (l ∷ ls) le w = (omega (arith, w.0), within_more h k ls le w.1)

horizon-WithinHorizon : (ls : List Limit) → WithinHorizon (horizon ls) ls
unfolding horizon
horizon-WithinHorizon [] = tt
horizon-WithinHorizon (l ∷ ls) =
    (omega arith, within_more (horizon ls) _ ls (omega arith) (horizon-WithinHorizon ls))

append-HasRoomFor :
    (now n h : ℕ) (es : List ℕ) (ls : List Limit)
    → WithinHorizon h ls
    → HasRoomFor now n es ls
    → HasRoomFor now 0 (drop_old now h es ++ repeat n now) ls
append-HasRoomFor now n h es [] w room = tt
append-HasRoomFor now n h es (l ∷ ls) w room = (
  omega (
    arith,
    room.0,
    recent-append now l.seconds (drop_old now h es) (repeat n now),
    recent-drop_old now l.seconds h es w.0,
    recent-repeat now l.seconds n,
  ),
  append-HasRoomFor now n h es ls w.1 room.1,
)

-- The answer follows the check, and an admission appends to the kept events.
append_if_ok-answer :
    (q : Result (Unit {0})) (kept : List ℕ) (n now : ℕ) → (append_if_ok q kept n now).0 ≡ q
append_if_ok-answer (ok u) kept n now = refl
append_if_ok-answer (err e) kept n now = refl

append_if_ok-events :
    (q : Result (Unit {0})) (kept : List ℕ) (n now : ℕ)
    → q ≡ ok tt
    → (append_if_ok q kept n now).1 ≡ kept ++ repeat n now
append_if_ok-events (ok u) kept n now e = refl
append_if_ok-events (err x) kept n now e = absurd (ground (arith, e))

-- For a positive count the governor admits the requests exactly when, over all the events that it was
-- given, each window has room for so many more, whichever events it drops as too old; and after
-- an admission no window holds more than its limit.
pub admit-HasRoomFor :
    (ls : List Limit) (now n : ℕ) (es : List ℕ)
    → 0 < n
    → (((admit ls now n es).0 ≡ ok tt) ↔ HasRoomFor now n es ls)
      × ((admit ls now n es).0 ≡ ok tt → HasRoomFor now 0 (admit ls now n es).1 ls)
unfolding admit
admit-HasRoomFor ls now n es positive =
    let h = horizon ls in
    let kept = drop_old now h es in
    let w = horizon-WithinHorizon ls in
    let checked = check_limits_iff now n h es ls w in
    let counts : leb n 0 ≡ false = ground arith in
    let q = check_limits now n kept ls in
    let answer = append_if_ok-answer q kept n now in
    rw counts (
      (λ e. checked.0 (sym answer ∙ e), λ room. answer ∙ checked.1 room),
      λ e.
          let passed : q ≡ ok tt = sym answer ∙ e in
          subst (λ events. HasRoomFor now 0 events ls)
            (sym (append_if_ok-events q kept n now passed))
            (append-HasRoomFor now n h es ls w (checked.0 passed)),
    )
