-- ===== src/Engine/Allowed.antt =====
-- What `permit_entry` of dhan_cas_bot/runtime.py asks for when dhan_cas_bot/engine.py enters, said
-- without its tests and in both directions.

use dhan_bot.Ledger.{Db, metadata}
use dhan_bot.Runtime.{
  permit_entry, Runtime, RunState, disarmed, recovering, settlement_pending, is_blocked, member,
  reads_true, is_fresh,
}
use dhan_bot.Engine.State.{Session}
use dhan_bot.Engine.Entry.{Rules, permitted}
use dhan_bot.Prelude.{
  Bool, true, false, String, Option, none, some, pos, ◌<ℤ◌, ◌≡◌, ◌≢◌, ◌⊎◌, inl, inr, refl, ap,
  arith, eq_iff, Bool-cases, str_eq,
}

-- What the runtime's permission asks for.
pub record IsAllowed (r : Rules) (adds : Bool) (t : Runtime) (db : Db) : Type 0 where
  pub named : (member "CAS_LAG_V1" r.enabled ≡ true) × (member "CAS_LAG_V1" r.known ≡ true)
  pub fresh : r.fresh ≢ some false
  pub mandated : (r.mandate.live_order_authority ≡ true) × (pos 0 <ℤ r.mandate.allocated_capital)
  pub verified : (t.software_verified ≡ true) × (t.route_verified ≡ true)
  pub funded : t.account_funded ≡ true
  pub seen : t.signal_seen ≡ true
  pub armed : t.is_armed ≡ true
  pub not_halted : metadata "disarmed" db ≢ some "true"
  pub free :
      (t.state ≢ disarmed)
      × (t.state ≢ recovering)
      × ((adds ≡ true) ⊎ (t.state ≢ settlement_pending))

blocked-ne :
    (adds : Bool) (s : RunState)
    → is_blocked adds s ≡ false
    → (s ≢ disarmed) × (s ≢ recovering) × ((adds ≡ true) ⊎ (s ≢ settlement_pending))
blocked-ne true s h = (
  λ k. (let d = rw k at h in ground (arith, d)),
  λ k. (let d = rw k at h in ground (arith, d)),
  inl refl,
)
blocked-ne false s h = (
  λ k. (let d = rw k at h in ground (arith, d)),
  λ k. (let d = rw k at h in ground (arith, d)),
  inr (λ k. (let d = rw k at h in ground (arith, d))),
)

ne-blocked :
    (adds : Bool) (s : RunState)
    → (s ≢ disarmed) × (s ≢ recovering) × ((adds ≡ true) ⊎ (s ≢ settlement_pending))
    → is_blocked adds s ≡ false
ne-blocked adds disarmed (a, b, c) = absurd (a refl)
ne-blocked adds recovering (a, b, c) = absurd (b refl)
ne-blocked adds settlement_pending (a, b, inl c) = rw c refl
ne-blocked adds settlement_pending (a, b, inr c) = absurd (c refl)
ne-blocked adds _ h = refl

fresh_ne : (o : Option Bool) → o ≢ some false → is_fresh o ≡ true
fresh_ne none h = refl
fresh_ne (some true) h = refl
fresh_ne (some false) h = absurd (h refl)

reads_ne : (o : Option String) → o ≢ some "true" → reads_true o ≡ false
reads_ne none h = refl
reads_ne (some t) h = elim (Bool-cases (str_eq t "true")) [
  | inl halted ↦
      let same : some t ≡ some "true" = ap (λ u. some u) ((eq_iff t "true").0 halted) in
      absurd (h same)
  | inr running ↦ running
]

pub permitted-IsAllowed :
    (r : Rules) (adds : Bool) (e : Session)
    → permitted r adds e ≡ true
    → IsAllowed r adds e.runtime e.db
unfolding permit_entry
permitted-IsAllowed r adds e h = record {
  named = (ground arith, ground arith);
  fresh = λ k. absurd (ground arith);
  mandated = (ground arith, ground arith);
  verified = (ground arith, ground arith);
  funded = ground arith;
  seen = ground arith;
  armed = ground arith;
  not_halted = λ k. absurd (ground arith);
  free = blocked-ne adds e.runtime.state (ground arith);
}

pub IsAllowed-permitted :
    (r : Rules) (adds : Bool) (e : Session)
    → IsAllowed r adds e.runtime e.db
    → permitted r adds e ≡ true
unfolding permit_entry
IsAllowed-permitted r adds e h =
    let fresh = fresh_ne r.fresh h.fresh in
    let running = reads_ne (metadata "disarmed" e.db) h.not_halted in
    let free = ne-blocked adds e.runtime.state h.free in
    ground (arith, h.named, fresh, h.mandated, h.verified, h.funded, h.seen, h.armed, running, free)
