-- ===== src/Governor/Tests.antt =====
-- A run of the governor of dhan_cas_bot/governor.py, and its theorem at a concrete input.
use dhan_bot.Governor.Admission.{HasRoomFor, admit-HasRoomFor}
use dhan_bot.Prelude.{refl, ◌≡◌, ◌↔◌, ok, err, [], ◌∷◌, arith}
use dhan_bot.Governor.Windows.{admit, default_limits, check_limits, drop_old, recent, horizon}

-- A tenth request in a second is admitted, an eleventh is not.
admit_run : (admit default_limits 1500000 10 (100 ∷ [])).0 ≡ ok tt
unfolding admit check_limits drop_old recent horizon
admit_run = refl

refused_run : (admit default_limits 1500000 10 (1400000 ∷ [])).0 ≡ err "Dhan rate bucket exhausted"
unfolding admit check_limits drop_old recent horizon
refused_run = refl

admit-HasRoomFor_example :
    (((admit default_limits 1500000 2 (100 ∷ [])).0 ≡ ok tt)
      ↔ HasRoomFor 1500000 2 (100 ∷ []) default_limits)
    × ((admit default_limits 1500000 2 (100 ∷ [])).0 ≡ ok tt
        → HasRoomFor 1500000 0 (admit default_limits 1500000 2 (100 ∷ [])).1 default_limits)
admit-HasRoomFor_example = admit-HasRoomFor default_limits 1500000 2 (100 ∷ []) (omega arith)
