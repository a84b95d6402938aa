-- ===== src/Route/Keys.antt =====
-- The counters of a session have names of their own, so that setting one leaves the others.
use dhan_bot.Prelude.{
  ◌≡◌, refl, List, [], ◌∷◌, ◌++◌, text_append, str_eq, eq_iff, String, some, ap, ◌∙◌, sym, arith,
  if◌then◌else◌, false, Bool-cases, inl, inr, ℤ,
}
use text.Mathlib.TextLemmas.{nil-append, cons-append}
use Prim.Native.Char.{code}
use dhan_bot.Domain.{codes}
use dhan_bot.Ledger.{Db, lookup, upsert, counter, set_counter}
use dhan_bot.Route.Qualify.{attempts_key, debit_key}

codes-append : (s t : String) → codes (text_append s t) ≡ codes s ++ codes t
codes-append String.[] t = ap codes (nil-append t)
codes-append (String.◌∷◌ c s) t =
    ap codes (cons-append c s t) ∙ ap (λ r. code c ∷ r) (codes-append s t)

pub debit_key-ne-attempts_key : (s : String) → str_eq (debit_key s) (attempts_key s) ≡ false
debit_key-ne-attempts_key s = elim (Bool-cases (str_eq (debit_key s) (attempts_key s))) [
  | inl same ↦
      let e = ap codes ((eq_iff (debit_key s) (attempts_key s)).0 same) in
      let k = sym (codes-append "probe.debit:" s) ∙ (e ∙ codes-append "probe.attempts:" s) in
      absurd (ground (arith, k))
  | inr other ↦ other
]

pub debit_key-ne-spent : (s : String) → str_eq (debit_key s) "probe.spent" ≡ false
debit_key-ne-spent s = elim (Bool-cases (str_eq (debit_key s) "probe.spent")) [
  | inl same ↦
      let e = ap codes ((eq_iff (debit_key s) "probe.spent").0 same) in
      let k = sym (codes-append "probe.debit:" s) ∙ e in absurd (ground (arith, k))
  | inr other ↦ other
]

pub spent-ne-attempts_key : (s : String) → str_eq "probe.spent" (attempts_key s) ≡ false
spent-ne-attempts_key s = elim (Bool-cases (str_eq "probe.spent" (attempts_key s))) [
  | inl same ↦
      let e = ap codes ((eq_iff "probe.spent" (attempts_key s)).0 same) in
      let k = e ∙ codes-append "probe.attempts:" s in absurd (ground (arith, k))
  | inr other ↦ other
]

lookup-upsert {ℓ} :
    {V : Type ℓ} (k j : String) (v : V) (m : List (String × V))
    → lookup j (upsert k v m) ≡ (if str_eq k j then some v else lookup j m)
unfolding lookup upsert
lookup-upsert k j v [] = refl
lookup-upsert k j v ((i, w) ∷ m) =
    ground (arith, eq_iff k j, eq_iff i k, eq_iff i j, lookup-upsert k j v m)

-- Reading a counter after a counter was set.
pub counter-set_counter :
    (k j : String) (v : ℤ) (db : Db)
    → counter j (set_counter k v db) ≡ (if str_eq k j then v else counter j db)
unfolding counter set_counter
counter-set_counter k j v db = ground (arith, lookup-upsert k j v db.counters)
