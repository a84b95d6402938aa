-- ===== src/Engine/Runs.antt =====
-- Every callback of dhan_cas_bot/engine.py keeps the observations and the streaks what they are.
use dhan_bot.Engine.Suffix.{All-imp}
use dhan_bot.Runtime.{Runtime}
use dhan_bot.Strategy.{Observed, Reference, select_reference}
use dhan_bot.Domain.{IndexObservation, OptionBook, CasStatus}
use dhan_bot.Engine.Signals.{
  on_iep, on_status, on_book, on_ltp, signal_reconnect, market_reconnect, adopt, lags, freeze,
  drop_streak, latest, is_some, is_stale, of_other_epoch, kept_streaks, wants_reference,
}
use dhan_bot.Ledger.{upsert, Db, freeze_reference}
use dhan_bot.Engine.State.{Codec, Session, start_session}
use dhan_bot.Prelude.{
  refl, [], none, List, Result, ℕ, String, str_eq, Bool-cases, Option, All, ◌≡◌, err, inl, false,
  ◌∷◌, some, true, ok, inr, arith, eq_iff, subst,
}
use dhan_bot.Engine.Reached.{
  Step, Reaches, on_final-reference, iep_at-cases, status, ltp, iep, same, book, next, final,
  signal_lost, market_lost,
}
use dhan_bot.Engine.Tracked.{OfSession, IsStreak, Lagging, accept-IsTracked}

Lagging-upsert_new :
    (v : ℕ) (k : String) (b : OptionBook) (j : String) (books : List (String × OptionBook))
    → lags v b ≡ true
    → Lagging v j books
    → Lagging v j (upsert k b books)
unfolding upsert
Lagging-upsert_new v k b j [] lag h = elim h [ ]
Lagging-upsert_new v k b j ((i, old) ∷ books) lag h = elim (Bool-cases (str_eq i k)) [
  | inl here ↦ rw here (elim h [
    | inl found ↦ inl (ground (arith, eq_iff i k, here, found.0), lag)
    | inr later ↦ inr later
  ])
  | inr there ↦ rw there (elim h [
    | inl found ↦ inl found
    | inr later ↦ inr (Lagging-upsert_new v k b j books lag later)
  ])
]

Lagging-upsert_other :
    (v : ℕ) (k : String) (b : OptionBook) (j : String) (books : List (String × OptionBook))
    → str_eq j k ≡ false
    → Lagging v j books
    → Lagging v j (upsert k b books)
unfolding upsert
Lagging-upsert_other v k b j [] other h = elim h [ ]
Lagging-upsert_other v k b j ((i, old) ∷ books) other h = elim (Bool-cases (str_eq i k)) [
  | inl here ↦ rw here (elim h [
    | inl found ↦ absurd (let e = rw found.0 at here in ground (arith, e, other))
    | inr later ↦ inr later
  ])
  | inr there ↦ rw there (elim h [
    | inl found ↦ inl found
    | inr later ↦ inr (Lagging-upsert_other v k b j books other later)
  ])
]

module _ (observations : List Observed) (b : OptionBook) (books : List (String × OptionBook)) where
  no_streaks :
      (streaks : List (String × List Observed))
      → latest observations ≡ none
      → All (IsStreak observations books) streaks
      → All (IsStreak observations (upsert b.instrument.security_id b books)) streaks
  no_streaks [] e h = tt
  no_streaks (s ∷ streaks) e h =
      let (suffix, some_run, v, found, lag) = h.0 in absurd (ground (arith, e, found))

  lagging_streaks :
      (v : ℕ) (streaks : List (String × List Observed))
      → latest observations ≡ some v
      → lags v b ≡ true
      → All (IsStreak observations books) streaks
      → All (IsStreak observations (upsert b.instrument.security_id b books)) streaks
  lagging_streaks v streaks e good h =
      All-imp (IsStreak observations books)
        (IsStreak observations (upsert b.instrument.security_id b books))
        (λ s run.
          let (suffix, some_run, w, found, lag) = run in
          let same : w ≡ v = ground (arith, e, found) in
          (
            suffix,
            some_run,
            v,
            e,
            Lagging-upsert_new v b.instrument.security_id b s.0 books good
                (subst (λ u. Lagging u s.0 books) same lag),
          ))
        streaks h

  dropped_streaks :
      (streaks : List (String × List Observed))
      → All (IsStreak observations books) streaks
      → All
          (IsStreak observations (upsert b.instrument.security_id b books))
          (drop_streak b.instrument.security_id streaks)
  unfolding drop_streak
  dropped_streaks [] h = tt
  dropped_streaks ((j, run) ∷ streaks) h =
      let k = b.instrument.security_id in
      elim (Bool-cases (str_eq j k)) [
        | inl gone ↦ rw gone (dropped_streaks streaks h.1)
        | inr other ↦ rw other (
          (let (suffix, some_run, v, found, lag) = h.0 in
              (suffix, some_run, v, found, Lagging-upsert_other v k b j books other lag)),
          dropped_streaks streaks h.1,
        )
      ]

  kept_streaks-IsStreak :
      (index : Option ℕ) (streaks : List (String × List Observed))
      → latest observations ≡ index
      → All (IsStreak observations books) streaks
      → All
          (IsStreak observations (upsert b.instrument.security_id b books))
          (kept_streaks index b streaks)
  kept_streaks-IsStreak none streaks e h = no_streaks streaks e h
  kept_streaks-IsStreak (some v) streaks e h = elim (Bool-cases (lags v b)) [
    | inl good ↦ rw good (lagging_streaks v streaks e good h)
    | inr bad ↦ rw bad (dropped_streaks streaks h)
  ]

on_book-IsTracked : (b : OptionBook) (e : Session) → OfSession e → OfSession (on_book b e)
unfolding on_book
on_book-IsTracked b e h = elim (Bool-cases (of_other_epoch e.market_epoch b)) [
  | inl other ↦ rw other h
  | inr own ↦ rw own (record {
    few = h.few;
    distinct = h.distinct;
    remembered = h.remembered;
    runs =
        kept_streaks-IsStreak e.observations b e.books (latest e.observations) e.streaks refl
          h.runs;
  })
]

freeze-IsTracked :
    (db : Result Db) (s : CasStatus) (e : Session) → OfSession e → OfSession (freeze db s e).1
freeze-IsTracked (err m) s e h = h
freeze-IsTracked (ok db) s e h = h

adopt-IsTracked :
    (c : Codec) (r : Result Reference) (s : CasStatus) (e : Session)
    → OfSession e
    → OfSession (adopt c r s e).1
adopt-IsTracked c (err m) s e h = h
adopt-IsTracked c (ok r) s e h =
    freeze-IsTracked (freeze_reference (c.of_day s.trading_date) (c.of_reference r) e.db) s
      (record e { reference = some r }) h

on_status-IsTracked :
    (c : Codec) (s : CasStatus) (u : ℕ) (e : Session)
    → OfSession e
    → OfSession (on_status c s u e).1
unfolding on_status
on_status-IsTracked c s u e h = elim (Bool-cases (is_stale e.status s)) [
  | inl stale ↦ rw stale h
  | inr current ↦
      rw current
        (elim (Bool-cases
          (wants_reference s (record e { status = some s; signal_epoch = some s.status_epoch }))) [
            | inl wanted ↦ rw wanted (
                adopt-IsTracked c (select_reference e.reference_observations s u) s
                  (record e { status = some s; signal_epoch = some s.status_epoch }) h)
            | inr not_wanted ↦ rw not_wanted h
          ])
]

on_ltp-IsTracked : (x : IndexObservation) (e : Session) → OfSession e → OfSession (on_ltp x e)
unfolding on_ltp
on_ltp-IsTracked x e h = elim (Bool-cases (is_some e.reference)) [
  | inl frozen ↦ rw frozen h
  | inr open_yet ↦ rw open_yet h
]

callback-IsTracked : (c : Codec) {e e' : Session} → Step c e e' → OfSession e → OfSession e'
unfolding on_iep signal_reconnect market_reconnect
callback-IsTracked c (status s u e) h = on_status-IsTracked c s u e h
callback-IsTracked c (ltp x e) h = on_ltp-IsTracked x e h
callback-IsTracked c (iep x e) h =
    iep_at-cases (λ t. OfSession t) c x e.reference e.status e h h
      (λ v new.
        accept-IsTracked c x v (record e { last_signal_timestamp = x.provider_ts_ms }) new h)
callback-IsTracked c (book b e) h = on_book-IsTracked b e h
callback-IsTracked c (final now f e e' k) h =
    let (r, streaks, observations, books, identities) = on_final-reference c now f e e' k in
    rw (observations, identities, streaks, books) h
callback-IsTracked c (signal_lost epoch e) h = record {
  few = omega arith;
  distinct = tt;
  remembered = tt;
  runs = tt;
}
callback-IsTracked c (market_lost epoch e) h = record {
  few = h.few;
  distinct = h.distinct;
  remembered = h.remembered;
  runs = tt;
}

-- At every moment of a session, whatever callbacks of the engine itself ran before (the removal of books by
-- MarketSubscriptions is none of them): there are at most 24 observations, no
-- two of one identity and each of them remembered; every streak is a run of the latest
-- observations, is not empty, and a book of its security lags the last observed value.
pub session-IsTracked :
    (c : Codec) (day : ℕ) (books : List (String × OptionBook)) (r : Runtime) (db : Db) {e : Session}
    → Reaches c (start_session day books r db) e
    → OfSession e
session-IsTracked c day books r db steps =
    from steps record { few = omega arith; distinct = tt; remembered = tt; runs = tt }
  where
    from : {a b : Session} → Reaches c a b → OfSession a → OfSession b
    from (same e) h = h
    from (next before step) h = callback-IsTracked c step (from before h)
