-- ===== src/Exits/Protection.antt =====
-- The net-profit ratchet of dhan_cas_bot/profit_exit.py: its peak, floor and trigger only move one
-- way, and it fires exactly when the net result is at the floor.
use dhan_bot.Prelude.{
  ℕ, ◌<◌, ◌≡◌, ◌↔◌, ◌⊎◌, arith, refl, zero, suc, negsuc, Bool, true, Option, none, some, ℤ, pos,
  pos_part, ◌≤ℤ◌, ◌<ℤ◌, ok, mul_mono, neg_part, ◌||◌, false, ltb_ℤ, max_ℤ, not, ltb, ◌&&◌,
}
use dhan_bot.Exits.Ratchet.{
  Policy, Guard, scale, at_floor, observe, floor_before, floor_after, peak_after, triggered_before,
}

scale_mono : (n : ℕ) (a b : ℤ) → a ≤ℤ b → scale n a ≤ℤ scale n b
unfolding scale
scale_mono n a b h =
    ground (arith, mul_mono n n (pos_part a) (pos_part b), mul_mono n n (neg_part b) (neg_part a))

scale_pos : (n : ℕ) (a : ℤ) → 0 < n → pos 0 <ℤ a → pos 0 <ℤ scale n a
unfolding scale
scale_pos n a p h = grind arith

pos_of_scale : (n : ℕ) (a : ℤ) → pos 0 <ℤ scale n a → pos 0 <ℤ a
unfolding scale
pos_of_scale n (pos zero) h = ground arith
pos_of_scale n (pos (suc k)) h = omega arith
pos_of_scale n (negsuc k) h = ground arith

scale_lt : (n d : ℕ) (a : ℤ) → n < d → pos 0 <ℤ a → scale n a <ℤ scale d a
unfolding scale
scale_lt n d a p h = grind arith

-- A later floor is not below an earlier one, and a floor once set stays set.
abbrev pub FloorGrows : Option ℤ → Option ℤ → Type 0
FloorGrows none later = Unit
FloorGrows (some f) none = ⊥
FloorGrows (some f) (some g) = f ≤ℤ g

-- A floor is above zero and at most the retained share of the peak.
abbrev pub FloorFits : Policy → ℤ → Option ℤ → Type 0
FloorFits p peak none = Unit
FloorFits p peak (some f) = (pos 0 <ℤ f) × (f ≤ℤ scale p.num peak)

abbrev IsSound : Policy → Option Guard → Type 0
IsSound p none = Unit
IsSound p (some g) = FloorFits p g.peak g.floor

abbrev IsPolicy : Policy → ℤ → Type 0
IsPolicy p cost = (0 < p.num) × (p.num < p.den) × (pos 0 ≤ℤ cost)

abbrev WasAtMost : Option Guard → ℤ → Type 0
WasAtMost none peak = Unit
WasAtMost (some g) peak = g.peak ≤ℤ peak

or_iff : (a b : Bool) → ((a || b) ≡ true) ↔ ((a ≡ true) ⊎ (b ≡ true))
or_iff a b = ground arith

or_false : (a : Bool) → (a || false) ≡ a
or_false a = ground arith

accepted :
    (p : Policy) (cost : ℤ)
    → IsPolicy p cost
    → (ltb_ℤ cost (pos 0) || not (ltb 0 p.num && ltb p.num p.den)) ≡ false
accepted p cost h = ground arith

FloorFits-mono :
    (p : Policy) (old peak : ℤ) (f : Option ℤ)
    → old ≤ℤ peak
    → FloorFits p old f
    → FloorFits p peak f
FloorFits-mono p old peak none h k = tt
FloorFits-mono p old peak (some f) h k = omega (arith, k.0, k.1, scale_mono p.num old peak h)

floor_after_lem :
    (p : Policy) (peak cost : ℤ) (floor : Option ℤ)
    → 0 < p.num
    → FloorFits p peak floor
    → FloorFits p peak (floor_after p peak cost floor)
      × FloorGrows floor (floor_after p peak cost floor)
floor_after_lem p peak cost none h k = ground (arith, scale_pos p.num peak h)
floor_after_lem p peak cost (some f) h k = ground (arith, scale_pos p.num peak h)

before_fits :
    (p : Policy) (net : ℤ) (previous : Option Guard)
    → IsSound p previous
    → FloorFits p (peak_after previous net) (floor_before previous)
      × WasAtMost previous (peak_after previous net)
      × (net ≤ℤ peak_after previous net)
before_fits p net none h = omega arith
before_fits p net (some g) h =
    let grown : g.peak ≤ℤ max_ℤ net g.peak = ground arith in
    (FloorFits-mono p g.peak (max_ℤ net g.peak) g.floor grown h, grown, ground arith)

fresh_peak :
    (p : Policy) (net peak : ℤ) (floor : Option ℤ)
    → p.num < p.den
    → peak ≡ net
    → FloorFits p peak floor
    → at_floor (scale p.den net) floor ≡ false
fresh_peak p net peak none h e k = refl
fresh_peak p net peak (some f) h e k =
    let below : f ≤ℤ scale p.num net = rw e at k.1 in
    let gain : pos 0 <ℤ net = pos_of_scale p.num net (omega (arith, k.0, below)) in
    ground (arith, scale_lt p.num p.den net h gain, k.0, below)

-- From a sound guard, or from none, an observation under a valid policy is accepted, and the guard
-- it returns is sound: a floor is above zero and at most the retained share of the peak. The
-- peak is at least the old peak and the net result, the floor does not fall and does not go
-- away, the guard is triggered exactly when it was or when the net result is at the new floor or
-- below it; and a net result that is the new peak does not trigger a guard that was not.
pub observe-ratchets :
    (p : Policy) (net cost : ℤ) (previous : Option Guard)
    → IsPolicy p cost
    → IsSound p previous
    → (g : Guard) × (observe p net cost previous ≡ ok g)
      × IsSound p (some g)
      × WasAtMost previous g.peak
      × (net ≤ℤ g.peak)
      × FloorGrows (floor_before previous) g.floor
      × ((g.triggered ≡ true)
          ↔ ((triggered_before previous ≡ true) ⊎ (at_floor (scale p.den net) g.floor ≡ true)))
      × (g.peak ≡ net → g.triggered ≡ triggered_before previous)
unfolding observe
observe-ratchets p net cost previous policy sound =
    let peak = peak_after previous net in
    let floor = floor_after p peak cost (floor_before previous) in
    let hit = at_floor (scale p.den net) floor in
    let before = before_fits p net previous sound in
    let after = floor_after_lem p peak cost (floor_before previous) policy.0 before.0 in
    (
      record { peak = peak; floor = floor; triggered = triggered_before previous || hit },
      rw (accepted p cost policy),
      after.0,
      before.1,
      before.2,
      after.1,
      or_iff (triggered_before previous) hit,
      λ e.
          rw (fresh_peak p net peak floor policy.1 e after.0)
            (or_false (triggered_before previous)),
    )
