-- ===== src/Strategy/Usable.antt =====
-- Which observations may stand for the reference of dhan_cas_bot/strategy.py.
use dhan_bot.Prelude.{
  ℕ, ◌+◌, ◌≤◌, ◌≡◌, refl, arith, Bool, true, List, [], ◌∷◌, All, select, Bool-cases, inl, inr,
  eq_iff, ◌<◌, ◌⊎◌, ◌/◌,
}
use dhan_bot.Domain.{CasStatus, IndexObservation}
use dhan_bot.Strategy.Boundary.{is_eligible}

-- Membership in a list.
abbrev pub IsIn : IndexObservation → List IndexObservation → Type 0
IsIn x [] = ⊥
IsIn x (y ∷ ys) = (x ≡ y) ⊎ IsIn x ys

pub All-imp {κ} :
    (P Q : IndexObservation → Type κ)
    → ((x : IndexObservation) → P x → Q x)
    → (xs : List IndexObservation) → All P xs
    → All Q xs
All-imp P Q f [] h = tt
All-imp P Q f (x ∷ xs) h = (f x h.0, All-imp P Q f xs h.1)

pub select-All :
    (p : IndexObservation → Bool) (xs : List IndexObservation)
    → All (λ x. (p x ≡ true) × IsIn x xs) (select p xs)
select-All p [] = tt
select-All p (x ∷ xs) =
    let rest =
      All-imp (λ z. (p z ≡ true) × IsIn z xs) (λ z. (p z ≡ true) × IsIn z (x ∷ xs))
        (λ z h. (h.0, inr h.1)) (select p xs) (select-All p xs) in
    elim (Bool-cases (p x)) [
      | inl yes_x ↦ rw yes_x ((yes_x, inl refl), rest)
      | inr no_x ↦ rw no_x rest
    ]

-- An observation of a list that may stand for the reference of a status.
pub record IsUsable (xs : List IndexObservation) (s : CasStatus) (uncertainty : ℕ)
    (x : IndexObservation) : Type 0 where
  pub given : IsIn x xs
  pub of_epoch : x.epoch ≡ s.status_epoch
  pub provided_lately : s.updated_time_ms ≤ x.provider_ts_ms + 30000
  pub provided_before : x.provider_ts_ms < s.updated_time_ms
  pub received_lately : s.updated_time_ms ≤ x.received_ns / 1000000 + 30000
  pub received_before : x.received_ns / 1000000 + uncertainty < s.updated_time_ms
  pub live : x.frame_kind ≡ "live_feed"
  pub wrapped : x.wrapper_present ≡ true

abbrev pub IsEligibleOf : CasStatus → ℕ → List IndexObservation → IndexObservation → Type 0
IsEligibleOf s uncertainty xs x = (is_eligible s uncertainty x ≡ true) × IsIn x xs

pub IsEligibleOf-IsUsable :
    (s : CasStatus) (uncertainty : ℕ) (xs : List IndexObservation) (x : IndexObservation)
    → IsEligibleOf s uncertainty xs x
    → IsUsable xs s uncertainty x
unfolding is_eligible
IsEligibleOf-IsUsable s uncertainty xs x (h, found) = record {
  given = found;
  of_epoch = ground (arith, eq_iff x.epoch s.status_epoch);
  provided_lately = ground arith;
  provided_before = ground arith;
  received_lately = ground arith;
  received_before = ground arith;
  live = ground (arith, eq_iff x.frame_kind "live_feed");
  wrapped = ground arith;
}
