-- ===== src/Orders/Action.antt =====
-- The state that `OrderManager` of dhan_cas_bot/orders.py works on, and its methods as actions: what
-- was committed before an exception stays committed, so the state comes back beside the error.
use dhan_bot.Prelude.{
  ℕ, suc, String, Bool, Result, ok, err, if◌then◌else◌, ◌≡◌, refl, ap, arith, ◌∙◌,
}
use dhan_bot.Ledger.{Db}

-- `revision` is `ledger.account_revision`.
pub record Account : Type 0 where
  pub db : Db
  pub revision : ℕ

abbrev pub Action : Type 0 → Type 0
Action A = Account → Result A × Account

module _ {A : Type 0} where
  abbrev pub pure : A → Action A
  pure a s = (ok a, s)

  abbrev pub lift : Result A → Action A
  lift r s = (r, s)

  abbrev pub gets : (Db → Result A) → Action A
  gets f s = (f s.db, s)

infixl 5 ◌>>=◌ ◌>>◌
abbrev pub ◌>>=◌ : {A B : Type 0} → Action A → (A → Action B) → Action B
◌>>=◌ m f s = let (r, s') = m s in elim r [ ok a ↦ f a s' | err e ↦ (err e, s') ]

abbrev pub ◌>>◌ : {A B : Type 0} → Action A → Action B → Action B
m >> k = m >>= λ _. k

abbrev pub refuse_if : Bool → String → Action (Unit {0})
refuse_if test message s = (if test then err message else ok tt, s)

abbrev pub modify : (Db → Db) → Action (Unit {0})
modify f s = (ok tt, record s { db = f s.db })

abbrev pub keep_or_raise : Account → Result Db → Result (Unit {0}) × Account
keep_or_raise s (ok db) = (ok tt, record s { db = db })
keep_or_raise s (err e) = (err e, s)

-- A ledger method that may raise; it leaves the database alone then.
abbrev pub commit : (Db → Result Db) → Action (Unit {0})
commit f s = keep_or_raise s (f s.db)

module _ {A : Type 0} where
  abbrev pub keep_with : Account → Result (A × Db) → Result A × Account
  keep_with s (ok (a, db)) = (ok a, record s { db = db })
  keep_with s (err e) = (err e, s)

  -- A ledger method that also answers.
  abbrev pub update : (Db → Result (A × Db)) → Action A
  update f s = keep_with s (f s.db)

-- `account_changed`
abbrev pub account_changed : Action (Unit {0})
account_changed s = (ok tt, record s { revision = suc s.revision })

-- The rule for a ledger method followed by more: it commits, or it raises and changes nothing.
module _ {A : Type 0} (P : Result A → Account → Type 0) (f : Db → Result Db) (k : Action A)
    (s : Account) where
  committed :
      (q : Result Db)
      → f s.db ≡ q
      → ((db : Db) → f s.db ≡ ok db → let (r, s') = k (record s { db = db }) in P r s')
      → ((e : String) → f s.db ≡ err e → P (err e) s)
      → let (r, s') = ((λ (t : Account). keep_or_raise t q) >> k) s in P r s'
  committed (ok db) e done raised = done db e
  committed (err m) e done raised = raised m e

  pub commit-cases :
      ((db : Db) → f s.db ≡ ok db → let (r, s') = k (record s { db = db }) in P r s')
      → ((e : String) → f s.db ≡ err e → P (err e) s)
      → let (r, s') = (commit f >> k) s in P r s'
  commit-cases = committed (f s.db) refl

-- What ran where a chain of two actions answered.
module _ {A B : Type 0} (m : Action A) (f : A → Action B) (s : Account) {b : B} {s' : Account} where
  stepped :
      (r : Result A) (t : Account)
      → m s ≡ (r, t)
      → ((λ (u : Account). (r, t)) >>= f) s ≡ (ok b, s')
      → (a : A) × (t' : Account) × (m s ≡ (ok a, t')) × (f a t' ≡ (ok b, s'))
  stepped (ok a) t e h = (a, t, e, h)
  stepped (err x) t e h = absurd (ground (arith, ap (λ p. p.0) h))

  pub >>=-ok :
      (m >>= f) s ≡ (ok b, s') → (a : A) × (t : Account) × (m s ≡ (ok a, t)) × (f a t ≡ (ok b, s'))
  >>=-ok h = stepped (m s).0 (m s).1 refl h

-- A ledger method that committed, and one that answered.
module _ (s : Account) {u : Unit {0}} {s' : Account} where
  kept : (q p : Result Db) → p ≡ q → keep_or_raise s q ≡ (ok u, s') → p ≡ ok s'.db
  kept (ok db) p e h = e ∙ ap (λ r. ok r.1.db) h
  kept (err x) p e h = absurd (ground (arith, ap (λ r. r.0) h))

  pub commit-ok : (f : Db → Result Db) → commit f s ≡ (ok u, s') → f s.db ≡ ok s'.db
  commit-ok f h = kept (f s.db) (f s.db) refl h

module _ {A : Type 0} (s : Account) {a : A} {s' : Account} where
  answered : (q p : Result (A × Db)) → p ≡ q → keep_with s q ≡ (ok a, s') → p ≡ ok (a, s'.db)
  answered (ok (b, db)) p e h = ground (arith, e, ap (λ r. r.0) h, ap (λ r. r.1.db) h)
  answered (err x) p e h = absurd (ground (arith, ap (λ r. r.0) h))

  pub update-ok : (f : Db → Result (A × Db)) → update f s ≡ (ok a, s') → f s.db ≡ ok (a, s'.db)
  update-ok f h = answered (f s.db) (f s.db) refl h
