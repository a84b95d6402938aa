-- ===== src/Engine/Leaving.antt =====
-- What becomes of a reason to leave a position in dhan_cas_bot/engine.py, over any sequence of its
-- callbacks and of the decisions of `cycle`.
use dhan_bot.Settlement.Final.{FinalValue}
use dhan_bot.Ledger.{LifecycleRow}
use dhan_bot.Domain.{Instrument}
use dhan_bot.Engine.State.{Codec, Session}
use dhan_bot.Engine.Signals.{
  on_status, on_ltp, on_iep, on_book, signal_reconnect, market_reconnect, accept,
}
use dhan_bot.Engine.Finality.{on_final, check_final, keep_final, halt_if, is_revision}
use dhan_bot.Engine.Reached.{
  Step, iep_at-cases, status, ltp, iep, book, final, signal_lost, market_lost,
}
use dhan_bot.Engine.Leave.{Peaks, decide}
use dhan_bot.Engine.Sticky.{decide-stays}
use dhan_bot.Prelude.{
  ok, ℕ, String, ◌≡◌, ◌≢◌, ◌⊎◌, inl, inr, refl, sym, ◌∙◌, arith, str_eq, false, Bool-cases, eq_iff,
  >>=-eq-ok,
}

-- Callbacks and decisions, one after the other. The close of the position, which clears the reason,
-- is none of them.
pub data Follows (c : Codec) (day : String) : Session → Session → Type 0 where
  unmoved : (e : Session) → Follows c day e e
  called : {a b d : Session} → Follows c day a b → Step c b d → Follows c day a d
  decided :
      {a b d : Session}
      → Follows c day a b
      → (stored : Peaks) (row : LifecycleRow) (i : Instrument) (time : ℕ) (reason : String)
      → decide day stored row i time b ≡ ok (reason, d)
      → Follows c day a d

-- The reason that the session had, or that of a final value that was revised.
abbrev pub IsLasting : String → String → Type 0
IsLasting before after = (after ≡ before) ⊎ (after ≡ "FINAL_VALUE_REVISED")

on_final-IsLasting :
    (c : Codec) (now : ℕ) (f : FinalValue) (e e' : Session)
    → on_final c now f e ≡ ok e'
    → IsLasting e.exit_reason e'.exit_reason
unfolding on_final
on_final-IsLasting c now f e e' h =
    let (_, _, done) =
      >>=-eq-ok (check_final c now f e)
        (λ _. ok (keep_final c f (halt_if (is_revision e.final_value f) e))) h in
    elim (Bool-cases (is_revision e.final_value f)) [
      | inl revised ↦ let d = rw revised at done in inr (ground (arith, d))
      | inr held ↦ let d = rw held at done in inl (ground (arith, d))
    ]

callback-IsLasting :
    (c : Codec) {e e' : Session} → Step c e e' → IsLasting e.exit_reason e'.exit_reason
unfolding on_status on_ltp on_iep on_book signal_reconnect market_reconnect accept
callback-IsLasting c (status s u e) = inl (ground arith)
callback-IsLasting c (ltp x e) = inl (ground arith)
callback-IsLasting c (iep x e) = inl (
    iep_at-cases (λ t. t.exit_reason ≡ e.exit_reason) c x e.reference e.status e refl refl
      (λ v new. refl))
callback-IsLasting c (book b e) = inl (ground arith)
callback-IsLasting c (final now f e e' k) = on_final-IsLasting c now f e e' k
callback-IsLasting c (signal_lost epoch e) = inl refl
callback-IsLasting c (market_lost epoch e) = inl refl

IsLasting-trans : (a b d : String) → IsLasting a b → IsLasting b d → IsLasting a d
IsLasting-trans a b d h (inr revised) = inr revised
IsLasting-trans a b d (inl same) (inl again) = inl (again ∙ same)
IsLasting-trans a b d (inr revised) (inl again) = inr (again ∙ revised)

IsLasting-set : (a b : String) → str_eq a "" ≡ false → IsLasting a b → str_eq b "" ≡ false
IsLasting-set a b h (inl same) = rw same h
IsLasting-set a b h (inr revised) = rw revised refl

Follows-IsLasting :
    (c : Codec) (day : String) {e e' : Session}
    → Follows c day e e'
    → str_eq e.exit_reason "" ≡ false
    → IsLasting e.exit_reason e'.exit_reason
Follows-IsLasting c day (unmoved e) h = inl refl
Follows-IsLasting c day {e} (called {b} {d} steps step) h =
    IsLasting-trans e.exit_reason b.exit_reason d.exit_reason (Follows-IsLasting c day steps h)
      (callback-IsLasting c step)
Follows-IsLasting c day {e} (decided {b} {d} steps stored row i time reason k) h =
    let before = Follows-IsLasting c day steps h in
    let set = IsLasting-set e.exit_reason b.exit_reason h before in
    IsLasting-trans e.exit_reason b.exit_reason d.exit_reason before
      (inl (decide-stays day stored row i time b d reason set k).1)

-- Once a session has a reason to leave, then after any sequence of callbacks and decisions (until the
-- position is closed, which is none of them) every decision that raises nothing gives a reason and
-- keeps it: the one that the session had at first, or FINAL_VALUE_REVISED.
pub Follows-keeps_leaving :
    (c : Codec) (day : String) {e e' : Session} (stored : Peaks) (row : LifecycleRow)
    (i : Instrument) (time : ℕ) (reason : String) (e'' : Session)
    → Follows c day e e'
    → e.exit_reason ≢ ""
    → decide day stored row i time e' ≡ ok (reason, e'')
    → (reason ≢ "") × IsLasting e.exit_reason reason × (e''.exit_reason ≡ reason)
Follows-keeps_leaving c day {e} {e'} stored row i time reason e'' steps leaving h =
    let set = set_of e.exit_reason leaving in
    let lasting = Follows-IsLasting c day steps set in
    let still = IsLasting-set e.exit_reason e'.exit_reason set lasting in
    let (given, kept) = decide-stays day stored row i time e' e'' reason still h in
    let given_set : str_eq reason "" ≡ false = rw given still in
    (
      λ k. ground (arith, given_set, eq_iff reason "", k),
      IsLasting-trans e.exit_reason e'.exit_reason reason lasting (inl given),
      kept ∙ sym given,
    )
  where
    set_of : (t : String) → t ≢ "" → str_eq t "" ≡ false
    set_of t h = elim (Bool-cases (str_eq t "")) [
      | inl blank ↦ absurd (h ((eq_iff t "").0 blank))
      | inr set ↦ set
    ]
