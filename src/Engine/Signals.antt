-- ===== src/Engine/Signals.antt =====
-- The callbacks of dhan_cas_bot/engine.py that the feeds call. A callback that raises keeps what it
-- changed before, so the session comes back beside the result.
use dhan_bot.Ledger.{observe}
use dhan_bot.Ledger.{Db, lookup, upsert, freeze_reference}
use dhan_bot.Strategy.{
  Identity, Reference, Observed, intrinsic, select_reference, is_cts_close, same_type, seen,
  same_identity, raw,
}
use dhan_bot.Domain.{
  unknown, CasPhase, CasStatus, IndexObservation, Instrument, OptionBook, OptionType, Level,
  top_bid, ce, pe, top_ask,
}
use dhan_bot.Engine.State.{Codec, Session}
use dhan_bot.Prelude.{
  [], none, Result, String, Option, List, ℕ, not, last_n, if◌then◌else◌, false, Bool, some, ◌++◌,
  str_eq, ok, ltb, ◌∷◌, true, err, ◌&&◌, leb, ◌||◌, length, map, min, max, ◌+◌,
}

abbrev pub is_some {ℓ} : {A : Type ℓ} → Option A → Bool
is_some none = false
is_some (some a) = true

unfoldable pub signal_reconnect : Option String → Session → Session
signal_reconnect epoch e = record e {
  signal_epoch = epoch;
  signal_connected = is_some epoch;
  status = none;
  observations = [];
  streaks = [];
  identities = [];
  reference_observations = [];
  last_signal_timestamp = 0;
  runtime = record e.runtime { signal_seen = false };
}

unfoldable pub market_reconnect : Option String → Session → Session
market_reconnect epoch e = record e {
  market_epoch = epoch;
  market_connected = is_some epoch;
  books = [];
  streaks = [];
}

-- A status of the same epoch that is older than the last one.
abbrev pub is_stale : Option CasStatus → CasStatus → Bool
is_stale none s = false
is_stale (some old) s =
    str_eq s.status_epoch old.status_epoch && ltb s.updated_time_ms old.updated_time_ms

abbrev pub is_unknown : CasPhase → Bool
is_unknown unknown = true
is_unknown _ = false

abbrev pub see_status : CasStatus → Session → Session
see_status s e = record e { runtime = record e.runtime { signal_seen = not (is_unknown s.phase) } }

abbrev pub freeze : Result Db → CasStatus → Session → Result (Unit {0}) × Session
freeze (err m) s e = (err m, e)
freeze (ok db) s e = (ok tt, see_status s (record e { db = db }))

-- The reference is set before the ledger may refuse it.
abbrev pub adopt : Codec → Result Reference → CasStatus → Session → Result (Unit {0}) × Session
adopt c (err m) s e = (err m, e)
adopt c (ok r) s e =
    freeze (freeze_reference (c.of_day s.trading_date) (c.of_reference r) e.db) s
      (record e { reference = some r })

abbrev pub wants_reference : CasStatus → Session → Bool
wants_reference s e =
    is_cts_close s.phase && not (is_some e.reference) && not e.saved_signal_invalid

abbrev pub take_status : Codec → CasStatus → ℕ → Session → Result (Unit {0}) × Session
take_status c s uncertainty e =
    if wants_reference s e
    then adopt c (select_reference e.reference_observations s uncertainty) s e
    else (ok tt, see_status s e)

unfoldable pub on_status : Codec → CasStatus → ℕ → Session → Result (Unit {0}) × Session
on_status c s uncertainty e =
    if is_stale e.status s
    then (ok tt, e)
    else take_status c s uncertainty
        (record e { status = some s; signal_epoch = some s.status_epoch })

unfoldable pub on_ltp : IndexObservation → Session → Session
on_ltp x e =
    if is_some e.reference
    then e
    else record e { reference_observations = last_n 2000 (e.reference_observations ++ (x ∷ [])) }

-- Both quotes deep enough for a lot, and the ask a tick or more below the value.
abbrev pub quotes_lag : Instrument → ℕ → Option Level → Option Level → Bool
quotes_lag i value (some bid) (some ask) =
    leb i.lot_size (min bid.quantity ask.quantity) && leb (ask.price + i.tick_size) value
quotes_lag i value _ _ = false

-- The book lags an index value.
unfoldable pub lags : ℕ → OptionBook → Bool
lags index b =
    let i = b.instrument in
    quotes_lag i (intrinsic i.option_type i.strike index) (top_bid b) (top_ask b)

abbrev pub direction : ℕ → ℕ → Option OptionType
direction reference value =
    if ltb reference value then some ce else if ltb value reference then some pe else none

abbrev pub is_type : Option OptionType → OptionType → Bool
is_type none t = false
is_type (some d) t = same_type t d

abbrev pub or_empty : Option (List Observed) → List Observed
or_empty none = []
or_empty (some h) = h

-- `self.streaks.get(security, [])`
abbrev pub streak_of : String → List (String × List Observed) → List Observed
streak_of k streaks = or_empty (lookup k streaks)

-- The streaks after an observation: of the books that lag it in its direction, one longer each.
unfoldable pub extend_streaks :
    ℕ
    → Observed
    → List (String × List Observed)
    → List (String × OptionBook)
    → List (String × List Observed)
extend_streaks reference x streaks [] = []
extend_streaks reference x streaks ((k, b) ∷ books) =
    let rest = extend_streaks reference x streaks books in
    if is_type (direction reference x.0) b.instrument.option_type && lags x.0 b
    then (k, last_n 24 (streak_of k streaks ++ (x ∷ []))) ∷ rest
    else rest

unfoldable pub seen_before : Identity → List Identity → Bool
seen_before id [] = false
seen_before id (j ∷ js) = same_identity j id || seen_before id js

abbrev pub identity_for : IndexObservation → Identity
identity_for x =
    if str_eq x.raw_identity "" then seen x.epoch x.provider_ts_ms x.value else raw x.raw_identity

-- What is left of the seen identities once there are more than 10000.
abbrev pub remember : Identity → List Observed → List Identity → List Identity
remember id observations identities =
    if ltb 10000 (length (id ∷ identities))
    then id ∷ map (λ (x : Observed). x.1) observations
    else id ∷ identities

-- A new observation, with the value of the reference.
unfoldable pub accept : Codec → IndexObservation → ℕ → Session → Session
accept c x reference e =
    let id = identity_for x in
    record e {
      identities = remember id e.observations e.identities;
      observations = last_n 24 (e.observations ++ ((x.value, id) ∷ []));
      streaks = extend_streaks reference (x.value, id) e.streaks e.books;
      db = observe (c.of_identity id) (c.of_observation x) e.db;
    }

abbrev pub take_iep : Codec → IndexObservation → ℕ → Session → Session
take_iep c x reference e =
    if seen_before (identity_for x) e.identities then e else accept c x reference e

abbrev pub iep_at :
    Codec → IndexObservation → Option Reference → Option CasStatus → Session → Session
iep_at c x (some r) (some s) e =
    if not (str_eq x.epoch s.status_epoch)
      || not x.wrapper_present
      || ltb x.provider_ts_ms (max e.last_signal_timestamp s.updated_time_ms)
    then e
    else take_iep c x r.value (record e { last_signal_timestamp = x.provider_ts_ms })
iep_at c x _ _ e = e

-- `on_iep` up to the cycle that it then runs, or with `dispatch=False`.
unfoldable pub on_iep : Codec → IndexObservation → Session → Session
on_iep c x e = iep_at c x e.reference e.status e

-- `streaks.pop(key, None)`
unfoldable pub drop_streak : String → List (String × List Observed) → List (String × List Observed)
drop_streak k [] = []
drop_streak k ((j, h) ∷ rows) =
    let rest = drop_streak k rows in if str_eq j k then rest else (j, h) ∷ rest

-- The latest value, if there is one.
abbrev pub latest : List Observed → Option ℕ
latest [] = none
latest (x ∷ []) = some x.0
latest (x ∷ y ∷ ys) = latest (y ∷ ys)

abbrev pub kept_streaks :
    Option ℕ → OptionBook → List (String × List Observed) → List (String × List Observed)
kept_streaks none b streaks = streaks
kept_streaks (some index) b streaks =
    if lags index b then streaks else drop_streak b.instrument.security_id streaks

abbrev pub of_other_epoch : Option String → OptionBook → Bool
of_other_epoch none b = false
of_other_epoch (some epoch) b = not (str_eq b.epoch epoch)

-- Dropping a streak that is not there changes nothing, so its presence is not asked for.
unfoldable pub on_book : OptionBook → Session → Session
on_book b e = if of_other_epoch e.market_epoch b then e else record e {
  books = upsert b.instrument.security_id b e.books;
  streaks = kept_streaks (latest e.observations) b e.streaks;
}
