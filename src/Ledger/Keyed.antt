-- ===== src/Ledger/Keyed.antt =====
-- The keyed tables of dhan_cas_bot/ledger.py: `freeze_reference`, `set_counter`, `counter`,
-- `put_metadata`, `metadata` and `observe`. A JSON value is its canonical text.
use dhan_bot.Prelude.{
  String, str_eq, Bool, Option, none, some, List, [], ◌∷◌, not, Result, ok, raise_if, ◌>>◌,
  if◌then◌else◌, ℤ, pos, false,
}
use dhan_bot.Ledger.Tables.{Db}

module _ {ℓ} {V : Type ℓ} where
  -- `SELECT value FROM … WHERE key=?`
  unfoldable pub lookup : String → List (String × V) → Option V
  lookup k [] = none
  lookup k ((j, v) ∷ rows) = if str_eq j k then some v else lookup k rows

  -- `INSERT … ON CONFLICT(key) DO UPDATE SET value=excluded.value`
  unfoldable pub upsert : String → V → List (String × V) → List (String × V)
  upsert k v [] = (k, v) ∷ []
  upsert k v ((j, w) ∷ rows) = if str_eq j k then (k, v) ∷ rows else (j, w) ∷ upsert k v rows

  -- `INSERT OR IGNORE`
  unfoldable pub insert_new : String → V → List (String × V) → List (String × V)
  insert_new k v [] = (k, v) ∷ []
  insert_new k v ((j, w) ∷ rows) =
      if str_eq j k then (j, w) ∷ rows else (j, w) ∷ insert_new k v rows

abbrev pub differs : Option String → String → Bool
differs none payload = false
differs (some old) payload = not (str_eq old payload)

unfoldable pub freeze_reference : String → String → Db → Result Db
freeze_reference session payload db = do
  raise_if (differs (lookup session db.references) payload) "same-session reference is immutable"
  ok (record db { references = insert_new session payload db.references })

unfoldable pub set_counter : String → ℤ → Db → Db
set_counter name value db = record db { counters = upsert name value db.counters }

abbrev pub or_nought : Option ℤ → ℤ
or_nought none = pos 0
or_nought (some v) = v

unfoldable pub counter : String → Db → ℤ
counter name db = or_nought (lookup name db.counters)

unfoldable pub put_metadata : String → String → Db → Db
put_metadata key value db = record db { metadata = upsert key value db.metadata }

unfoldable pub metadata : String → Db → Option String
metadata key db = lookup key db.metadata

unfoldable pub observe : String → String → Db → Db
observe identity payload db = record db {
  observations = insert_new identity payload db.observations;
}

unfoldable pub observe_batch : List (String × String) → Db → Db
observe_batch [] db = db
observe_batch ((identity, payload) ∷ items) db = observe_batch items (observe identity payload db)
