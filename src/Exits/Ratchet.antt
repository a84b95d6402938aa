-- ===== src/Exits/Ratchet.antt =====
-- `observe` of dhan_cas_bot/profit_exit.py. The retained share of the peak is `num / den`. A floor is
-- a share of a peak, so it is counted in parts `1 / den` of the unit of the other amounts: then every
-- product of the source is exact here.
use dhan_bot.Prelude.{
  ℕ, ◌*◌, Bool, false, Option, none, some, ℤ, pos, pos_part, neg_part, sub_ℕ, ltb_ℤ, leb_ℤ, max_ℤ,
  ltb, not, ◌&&◌, ◌||◌, Result, ok, raise_if, ◌>>◌, if◌then◌else◌,
}

pub record Policy : Type 0 where
  pub num : ℕ
  pub den : ℕ

-- The dictionary that `observe` returns, and takes back as `previous`.
pub record Guard : Type 0 where
  pub peak : ℤ
  pub floor : Option ℤ
  pub triggered : Bool

unfoldable pub scale : ℕ → ℤ → ℤ
scale d z = sub_ℕ (d * pos_part z) (d * neg_part z)

abbrev pub peak_after : Option Guard → ℤ → ℤ
peak_after none net = net
peak_after (some g) net = max_ℤ net g.peak

abbrev pub floor_before : Option Guard → Option ℤ
floor_before none = none
floor_before (some g) = g.floor

abbrev pub triggered_before : Option Guard → Bool
triggered_before none = false
triggered_before (some g) = g.triggered

-- `floor or D(0)`
abbrev pub or_zero : Option ℤ → ℤ
or_zero none = pos 0
or_zero (some f) = f

abbrev pub at_floor : ℤ → Option ℤ → Bool
at_floor net none = false
at_floor net (some f) = leb_ℤ net f

-- The floor once the peak is positive and at least twice the cost of the round trip.
abbrev pub floor_after : Policy → ℤ → ℤ → Option ℤ → Option ℤ
floor_after p peak cost floor =
    if ltb_ℤ (pos 0) peak && leb_ℤ (scale 2 cost) peak
    then some (max_ℤ (or_zero floor) (scale p.num peak))
    else floor

unfoldable pub observe : Policy → ℤ → ℤ → Option Guard → Result Guard
observe p net cost previous = do
  raise_if (ltb_ℤ cost (pos 0) || not (ltb 0 p.num && ltb p.num p.den))
      "invalid profit-protection policy"
  let peak = peak_after previous net
  let floor = floor_after p peak cost (floor_before previous)
  ok (record {
    peak = peak;
    floor = floor;
    triggered = triggered_before previous || at_floor (scale p.den net) floor;
  })
