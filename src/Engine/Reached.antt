-- ===== src/Engine/Reached.antt =====
-- The callbacks of dhan_cas_bot/engine.py as the steps of a session, and what no sequence of them
-- undoes.
use dhan_bot.Settlement.Final.{FinalValue}
use dhan_bot.Domain.{CasStatus, IndexObservation, OptionBook}
use dhan_bot.Strategy.{Reference}
use dhan_bot.Engine.State.{Codec, Session}
use dhan_bot.Engine.Signals.{
  on_status, on_ltp, on_iep, on_book, signal_reconnect, market_reconnect, iep_at, seen_before,
  identity_for, accept,
}
use dhan_bot.Engine.Finality.{on_final, check_final, keep_final, halt_if, is_revision}
use dhan_bot.Prelude.{
  max, none, ℕ, ◌≡◌, some, ok, Option, >>=-eq-ok, String, Bool-cases, inl, arith, inr, ◌∙◌, false,
  not, str_eq, ◌||◌, ltb,
}

-- One call of a callback, at any argument; a refused final value changes nothing.
pub data Step (c : Codec) : Session → Session → Type 0 where
  status :
      (s : CasStatus) (uncertainty : ℕ) (e : Session) → Step c e (on_status c s uncertainty e).1
  ltp : (x : IndexObservation) (e : Session) → Step c e (on_ltp x e)
  iep : (x : IndexObservation) (e : Session) → Step c e (on_iep c x e)
  book : (b : OptionBook) (e : Session) → Step c e (on_book b e)
  final : (now : ℕ) (f : FinalValue) (e e' : Session) → on_final c now f e ≡ ok e' → Step c e e'
  signal_lost : (epoch : Option String) (e : Session) → Step c e (signal_reconnect epoch e)
  market_lost : (epoch : Option String) (e : Session) → Step c e (market_reconnect epoch e)

pub data Reaches (c : Codec) : Session → Session → Type 0 where
  same : (e : Session) → Reaches c e e
  next : {a b d : Session} → Reaches c a b → Step c b d → Reaches c a d

pub on_final-reference :
    (c : Codec) (now : ℕ) (f : FinalValue) (e e' : Session)
    → on_final c now f e ≡ ok e'
    → (e'.reference ≡ e.reference)
      × (e'.streaks ≡ e.streaks)
      × (e'.observations ≡ e.observations)
      × (e'.books ≡ e.books)
      × (e'.identities ≡ e.identities)
unfolding on_final
on_final-reference c now f e e' h =
    let (_, _, done) =
      >>=-eq-ok (check_final c now f e)
        (λ _. ok (keep_final c f (halt_if (is_revision e.final_value f) e))) h in
    elim (Bool-cases (is_revision e.final_value f)) [
      | inl revised ↦
          let d = rw revised at done in
          (
            ground (arith, d),
            ground (arith, d),
            ground (arith, d),
            ground (arith, d),
            ground (arith, d),
          )
      | inr held ↦
          let d = rw held at done in
          (
            ground (arith, d),
            ground (arith, d),
            ground (arith, d),
            ground (arith, d),
            ground (arith, d),
          )
    ]

-- What holds after an indicative value: nothing changed, or only its time was noted, or it was new.
pub iep_at-cases :
    (P : Session → Type 0) (c : Codec) (x : IndexObservation) (r : Option Reference)
    (s : Option CasStatus) (e : Session)
    → P e
    → P (record e { last_signal_timestamp = x.provider_ts_ms })
    → ((v : ℕ)
        → seen_before (identity_for x) e.identities ≡ false
        → P (accept c x v (record e { last_signal_timestamp = x.provider_ts_ms })))
    → P (iep_at c x r s e)
iep_at-cases P c x none s e h k l = h
iep_at-cases P c x (some r) none e h k l = h
iep_at-cases P c x (some r) (some s) e h k l =
    elim (Bool-cases (
      not (str_eq x.epoch s.status_epoch)
      || not x.wrapper_present
      || ltb x.provider_ts_ms (max e.last_signal_timestamp s.updated_time_ms))) [
        | inl refused ↦ rw refused h
        | inr current ↦ elim (Bool-cases (seen_before (identity_for x) e.identities)) [
          | inl repeated ↦ rw (current, repeated) k
          | inr new ↦ rw (current, new) (l r.value new)
        ]
      ]

callback-keeps_reference :
    (c : Codec) {e e' : Session} (r : Reference)
    → Step c e e'
    → e.reference ≡ some r
    → e'.reference ≡ some r
unfolding on_status on_ltp on_iep on_book signal_reconnect market_reconnect accept
callback-keeps_reference c r (status s u e) h = ground (arith, h)
callback-keeps_reference c r (ltp x e) h = ground (arith, h)
callback-keeps_reference c r (iep x e) h =
    iep_at-cases (λ t. t.reference ≡ some r) c x e.reference e.status e h h (λ v new. h)
callback-keeps_reference c r (book b e) h = ground (arith, h)
callback-keeps_reference c r (final now f e e' k) h = (on_final-reference c now f e e' k).0 ∙ h
callback-keeps_reference c r (signal_lost epoch e) h = h
callback-keeps_reference c r (market_lost epoch e) h = h

-- Once a session has a reference, no sequence of callbacks replaces it or takes it away.
pub session-keeps_reference :
    (c : Codec) {e e' : Session} (r : Reference)
    → Reaches c e e'
    → e.reference ≡ some r
    → e'.reference ≡ some r
session-keeps_reference c r (same e) h = h
session-keeps_reference c r (next steps step) h =
    callback-keeps_reference c r step (session-keeps_reference c r steps h)
