-- ===== src/Engine/Order.antt =====
-- The order of the statuses of dhan_cas_bot/engine.py, and the reference that the close freezes.
use dhan_bot.Settlement.Final.{FinalValue}
use dhan_bot.Strategy.{Reference, select_reference}
use dhan_bot.Domain.{CasStatus}
use dhan_bot.Ledger.{lookup, freeze_reference, insert_new, Db, differs}
use dhan_bot.Engine.Finality.{on_final, check_final, keep_final, halt_if, is_revision}
use dhan_bot.Engine.State.{Codec, Session}
use dhan_bot.Engine.Signals.{
  on_status, on_ltp, on_iep, on_book, freeze, take_status, is_stale, adopt, signal_reconnect,
  market_reconnect, wants_reference, accept, see_status, is_some, of_other_epoch,
}
use dhan_bot.Prelude.{
  refl, ◌∷◌, [], none, Option, Result, ℕ, String, ◌≡◌, some, List, arith, Bool-cases, ◌≤◌, ok, err,
  false, inl, >>=-eq-ok, ap, true, eq_iff, inr, raise_if, sym, ◌∙◌, str_eq, ◌⊎◌,
}
use dhan_bot.Engine.Reached.{
  Step, iep_at-cases, status, ltp, iep, book, final, signal_lost, market_lost,
}

-- What a callback does to the status `s` of a session: it stays, or a status that is no older where
-- it is of the same epoch takes its place, or the signal is lost and with it the status.
abbrev pub NoOlder : Codec → CasStatus → Session → Session → Type 0
NoOlder c s e e' =
    (e'.status ≡ some s)
    ⊎ (((t : CasStatus) × (u : ℕ) × (e' ≡ (on_status c t u e).1)
          × (e'.status ≡ some t)
          × (t.status_epoch ≡ s.status_epoch → s.updated_time_ms ≤ t.updated_time_ms))
        ⊎ ((epoch : Option String) × (e' ≡ signal_reconnect epoch e) × (e'.status ≡ none)))

freeze-status : (db : Result Db) (s : CasStatus) (e : Session) → (freeze db s e).1.status ≡ e.status
freeze-status (err m) s e = refl
freeze-status (ok db) s e = refl

adopt-status :
    (c : Codec) (r : Result Reference) (s : CasStatus) (e : Session)
    → (adopt c r s e).1.status ≡ e.status
adopt-status c (err m) s e = refl
adopt-status c (ok r) s e =
    freeze-status (freeze_reference (c.of_day s.trading_date) (c.of_reference r) e.db) s
      (record e { reference = some r })

take_status-status :
    (c : Codec) (s : CasStatus) (u : ℕ) (e : Session) → (take_status c s u e).1.status ≡ e.status
take_status-status c s u e = elim (Bool-cases (wants_reference s e)) [
  | inl wanted ↦ rw wanted (adopt-status c (select_reference e.reference_observations s u) s e)
  | inr settled ↦ rw settled refl
]

on_status-NoOlder :
    (c : Codec) (t s : CasStatus) (u : ℕ) (e : Session)
    → e.status ≡ some s
    → NoOlder c s e (on_status c t u e).1
unfolding on_status
on_status-NoOlder c t s u e h = elim (Bool-cases (is_stale e.status t)) [
  | inl stale ↦ inl (rw stale h)
  | inr current ↦
      let fresh = rw h at current in
      let taken : (on_status c t u e).1.status ≡ some t =
        rw
          (
            current,
            take_status-status c t u
                (record e { status = some t; signal_epoch = some t.status_epoch }),
          )
          refl in
      inr (
        inl (
          t,
          u,
          refl,
          taken,
          λ same. ground (arith, fresh, same, eq_iff t.status_epoch s.status_epoch),
        ))
]

on_final-status :
    (c : Codec) (now : ℕ) (f : FinalValue) (e e' : Session)
    → on_final c now f e ≡ ok e'
    → e'.status ≡ e.status
unfolding on_final
on_final-status c now f e e' h =
    let (_, _, done) =
      >>=-eq-ok (check_final c now f e)
        (λ _. ok (keep_final c f (halt_if (is_revision e.final_value f) e))) h in
    elim (Bool-cases (is_revision e.final_value f)) [
      | inl revised ↦ let d = rw revised at done in ground (arith, d)
      | inr held ↦ let d = rw held at done in ground (arith, d)
    ]

-- After a callback on a session with a status, that status stays; or the callback was a status, which
-- the session has now, and which is no older where it is of the same epoch; or the callback was a
-- loss or a change of the signal's connection, and there is none.
pub callback-NoOlder :
    (c : Codec) {e e' : Session} (s : CasStatus)
    → Step c e e'
    → e.status ≡ some s
    → NoOlder c s e e'
unfolding on_ltp on_iep on_book signal_reconnect market_reconnect accept
callback-NoOlder c s (status t u e) h = on_status-NoOlder c t s u e h
callback-NoOlder c s (ltp x e) h = elim (Bool-cases (is_some e.reference)) [
  | inl frozen ↦ inl (rw frozen h)
  | inr open_yet ↦ inl (rw open_yet h)
]
callback-NoOlder c s (iep x e) h =
    inl (iep_at-cases (λ t. t.status ≡ some s) c x e.reference e.status e h h (λ v new. h))
callback-NoOlder c s (book b e) h = elim (Bool-cases (of_other_epoch e.market_epoch b)) [
  | inl other ↦ inl (rw other h)
  | inr own ↦ inl (rw own h)
]
callback-NoOlder c s (final now f e e' k) h = inl (rw (on_final-status c now f e e' k) h)
callback-NoOlder c s (signal_lost epoch e) h = inr (inr (epoch, refl, refl))
callback-NoOlder c s (market_lost epoch e) h = inl h

lookup-insert_new :
    (k v : String) (rows : List (String × String))
    → differs (lookup k rows) v ≡ false
    → lookup k (insert_new k v rows) ≡ some v
unfolding lookup insert_new
lookup-insert_new k v [] h = ground (arith, eq_iff k k)
lookup-insert_new k v ((j, w) ∷ rows) h = elim (Bool-cases (str_eq j k)) [
  | inl here ↦ let d = rw here at h in ground (arith, here, d, eq_iff w v)
  | inr there ↦ let d = rw there at h in ground (arith, there, lookup-insert_new k v rows d)
]

freeze-kept :
    (day payload : String) (db : Db) (s : CasStatus) (e e' : Session) (q : Result Db)
    → freeze_reference day payload db ≡ q
    → freeze q s e ≡ (ok tt, e')
    → (e'.reference ≡ e.reference) × (lookup day e'.db.references ≡ some payload)
unfolding freeze_reference
freeze-kept day payload db s e e' (err m) h k = absurd (ground (arith, ap (λ p. p.0) k))
freeze-kept day payload db s e e' (ok db') h k =
    let final : see_status s (record e { db = db' }) ≡ e' = ap (λ p. p.1) k in
    let (_, new, done) =
      >>=-eq-ok
        (raise_if (differs (lookup day db.references) payload)
          "same-session reference is immutable")
        (λ _. ok (record db { references = insert_new day payload db.references })) h in
    let fresh : differs (lookup day db.references) payload ≡ false = ground (arith, new) in
    let rows : insert_new day payload db.references ≡ db'.references = ground (arith, done) in
    (
      sym (ap (λ t. t.reference) final),
      sym (ap (λ t. lookup day t.db.references) final)
          ∙ rw (← rows) (lookup-insert_new day payload db.references fresh),
    )

adopt-kept :
    (c : Codec) (s : CasStatus) (e e' : Session) (q : Result Reference)
    → adopt c q s e ≡ (ok tt, e')
    → (r : Reference) × (q ≡ ok r)
      × (e'.reference ≡ some r)
      × (lookup (c.of_day s.trading_date) e'.db.references ≡ some (c.of_reference r))
adopt-kept c s e e' (err m) h = absurd (ground (arith, ap (λ p. p.0) h))
adopt-kept c s e e' (ok r) h =
    let (a, b) =
      freeze-kept (c.of_day s.trading_date) (c.of_reference r) e.db s
        (record e { reference = some r }) e'
        (freeze_reference (c.of_day s.trading_date) (c.of_reference r) e.db) refl h in
    (r, refl, a, b)

-- The first status that is taken at the close of the session, where it raises nothing, leaves the
-- reference selected from the observations so far, and the ledger has it under the trading day.
pub on_status-freezes :
    (c : Codec) (s : CasStatus) (u : ℕ) (e e' : Session)
    → is_stale e.status s ≡ false
    → wants_reference s e ≡ true
    → on_status c s u e ≡ (ok tt, e')
    → (r : Reference) × (select_reference e.reference_observations s u ≡ ok r)
      × (e'.reference ≡ some r)
      × (lookup (c.of_day s.trading_date) e'.db.references ≡ some (c.of_reference r))
unfolding on_status
on_status-freezes c s u e e' fresh wanted h =
    adopt-kept c s (record e { status = some s; signal_epoch = some s.status_epoch }) e'
      (select_reference e.reference_observations s u) (rw (fresh, wanted) at h)
