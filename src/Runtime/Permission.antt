-- ===== src/Runtime/Permission.antt =====
-- When dhan_cas_bot/runtime.py permits an entry, and that a halt lasts over a restart.
use dhan_bot.Ledger.{lookup, Db, upsert, metadata, put_metadata}
use dhan_bot.Runtime.Status.{Runtime, permit_entry, disarm_new_entries, arm, armed_waiting_signal}
use dhan_bot.Prelude.{
  ◌≡◌, arith, String, Bool, true, false, Option, some, List, [], ◌∷◌, ok, eq_iff, refl, Result, err,
  ◌⊎◌, inl, inr, Bool-cases,
}
use dhan_bot.Domain.{Mandate}

lookup-upsert :
    (k : String) (v : String) (rows : List (String × String)) → lookup k (upsert k v rows) ≡ some v
unfolding lookup upsert
lookup-upsert k v [] = ground (arith, eq_iff k k)
lookup-upsert k v ((j, w) ∷ rows) = ground (arith, eq_iff j k, eq_iff k k, lookup-upsert k v rows)

-- What arming gives: with the authority an armed status and no halt, without it an error.
abbrev pub ArmsByAuthority : Bool → Result (Runtime × Db) → Type 0
ArmsByAuthority authority armed =
    ((authority ≡ true)
      × (s : Runtime) × (db' : Db) × (armed ≡ ok (s, db'))
      × (s.is_armed ≡ true)
      × (metadata "disarmed" db' ≡ some "false"))
    ⊎ ((authority ≡ false) × (armed ≡ err "standing mandate does not authorize live writes"))

arm-ArmsByAuthority :
    (m : Mandate) (r : Runtime) (db : Db) → ArmsByAuthority m.live_order_authority (arm m r db)
unfolding arm put_metadata metadata
arm-ArmsByAuthority m r db = elim (Bool-cases m.live_order_authority) [
  | inl given ↦ inl (
    given,
    record r { is_armed = true; state = armed_waiting_signal },
    put_metadata "disarmed" "false" db,
    rw given refl,
    refl,
    lookup-upsert "disarmed" "false" db.metadata,
  )
  | inr missing ↦ inr (missing, rw missing refl)
]

-- After the operator's halt no entry is permitted, neither by the status that the halt leaves nor by
-- any other status over the same database, such as that of a new process. Arming then depends on the
-- mandate: with its authority the result is an armed status over a database without the halt, and
-- without it arming fails and gives neither.
pub disarm-halts :
    (known enabled : List String) (fresh : Option Bool) (m : Mandate) (adds : Bool)
    (strategy : String) (r other : Runtime) (db : Db)
    → let (halted, kept) = disarm_new_entries r db in
      (permit_entry known enabled fresh m adds strategy halted kept ≡ false)
      × (permit_entry known enabled fresh m adds strategy other kept ≡ false)
      × ArmsByAuthority m.live_order_authority (arm m other kept)
unfolding permit_entry disarm_new_entries arm put_metadata metadata
disarm-halts known enabled fresh m adds strategy r other db =
    let kept = lookup-upsert "disarmed" "true" db.metadata in
    (
      ground (arith, kept),
      ground (arith, kept),
      arm-ArmsByAuthority m other (put_metadata "disarmed" "true" db),
    )
