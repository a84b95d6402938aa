-- ===== src/Route/Grants.antt =====
-- `extra_attempts`, `grant_extra_attempt`, `rejected_probe_contracts` and `rejected_probe_resolved`
-- of dhan_cas_bot/route.py. Times are microseconds, days are numbered; the texts that the ledger
-- stores are written and read by a codec, whose reading fails where the source finds no dictionary
-- or a time without a zone.
use dhan_bot.Prelude.{
  ℕ, ◌+◌, ◌/◌, String, text_append, Bool, true, false, not, ◌&&◌, ◌||◌, Option, none, some, List,
  [], ◌∷◌, map, take, leb, ◌==◌, str_eq, if◌then◌else◌, select, any, find, sort_by, ℤ, Result, ok,
  raise_if, ◌>>=◌, ◌>>◌, pos_part, neg_part, ◌++◌,
}
use dhan_bot.Ledger.{
  Db, IntentRow, OrderRow, FillRow, IntentState, OrderState, is_buy, lifecycle_totals, metadata,
  put_metadata, same_state,
}

-- The record of a grant; a number that is not an `int`, or a missing time, is absent.
pub record Grant : Type 0 where
  pub extra : Option ℕ
  pub normal_limit : Option ℕ
  pub operator_requested : Bool
  pub recorded_at : Option ℕ

-- The record of the last probe.
pub record ProbeRecord : Type 0 where
  pub epoch : String
  pub correlation_id : String
  pub intent_id : String

pub record Codec : Type 0 where
  pub day_text : ℕ → String
  pub of_grant : Grant → String
  pub grant_of : String → Option Grant
  pub of_probe : ProbeRecord → String
  pub probe_of : String → Option ProbeRecord

-- `now.astimezone(IST).date()`: the zone is 5½ hours ahead.
abbrev pub ist_day : ℕ → ℕ
ist_day now = (now + 19800000000) / 86400000000

-- A recorded time that is not in the future and of the same day.
abbrev pub is_today : ℕ → ℕ → Bool
is_today now at = leb at now && ist_day at == ist_day now

abbrev pub equals : Option ℕ → ℕ → Bool
equals none n = false
equals (some m) n = m == n

abbrev pub recorded_today : ℕ → Option ℕ → Bool
recorded_today now none = false
recorded_today now (some at) = is_today now at

unfoldable pub is_granted : ℕ → ℕ → Grant → Bool
is_granted normal_limit now g =
    equals g.extra 1
    && (equals g.normal_limit normal_limit
        && (g.operator_requested && recorded_today now g.recorded_at))

abbrev pub read_with {ℓ} : {A : Type ℓ} → (String → Option A) → Option String → Option A
read_with f none = none
read_with f (some text) = f text

abbrev pub grant_key : String → String
grant_key session_id = text_append "probe.extra_attempt:" session_id

abbrev pub one_if_granted : ℕ → ℕ → Option Grant → ℕ
one_if_granted normal_limit now none = 0
one_if_granted normal_limit now (some g) = if is_granted normal_limit now g then 1 else 0

-- Rows of `intents i JOIN orders o ON o.intent_id=i.intent_id`
abbrev pub join_intent : IntentRow → List OrderRow → List (IntentRow × OrderRow)
join_intent i orders =
    map (λ o. (i, o)) (select (λ (o : OrderRow). str_eq o.intent_id i.intent_id) orders)

unfoldable pub joined_rows : List IntentRow → List OrderRow → List (IntentRow × OrderRow)
joined_rows [] orders = []
joined_rows (i ∷ is) orders = join_intent i orders ++ joined_rows is orders

abbrev pub newest_first : IntentRow × OrderRow → IntentRow × OrderRow → Bool
newest_first a b = leb b.0.created_at a.0.created_at

abbrev pub is_probe : IntentRow → Bool
is_probe i = str_eq i.lifecycle_id "route-probe"

abbrev pub is_rejected : OrderState → Bool
is_rejected s = same_state s OrderState.rejected

abbrev pub is_rejected_intent : IntentState → Bool
is_rejected_intent IntentState.rejected = true
is_rejected_intent _ = false

-- The contracts of today's rejected probes among the newest 128 of them.
unfoldable pub rejected_probe_contracts : Db → ℕ → List String
unfolding joined_rows
rejected_probe_contracts db now =
    map (λ (r : IntentRow × OrderRow). r.0.security_id)
      (select (λ (r : IntentRow × OrderRow). is_today now r.0.created_at)
        (take 128 (
          sort_by newest_first (
            select (λ (r : IntentRow × OrderRow). is_probe r.0 && is_rejected r.1.state)
              (joined_rows db.intents db.orders)))))

abbrev pub is_stored : Option String → Bool
is_stored none = false
is_stored (some text) = true

abbrev pub is_nought : ℤ → Bool
is_nought v = pos_part v == neg_part v

module _ (codec : Codec) where
  unfoldable pub extra_attempts : Db → String → ℕ → ℕ → ℕ
  unfolding is_granted
  extra_attempts db session_id normal_limit now =
      let granted =
        one_if_granted normal_limit now
          (read_with codec.grant_of (metadata (grant_key session_id) db)) in
      if str_eq session_id (codec.day_text (ist_day now)) then granted else 0

  abbrev pub new_grant : ℕ → ℕ → Grant
  new_grant normal_limit now = record {
    extra = some 1;
    normal_limit = some normal_limit;
    operator_requested = true;
    recorded_at = some now;
  }

  unfoldable pub grant_extra_attempt : String → ℕ → ℕ → Db → Result Db
  unfolding extra_attempts
  grant_extra_attempt session_id normal_limit now db = do
    raise_if (not (str_eq session_id (codec.day_text (ist_day now))) || normal_limit == 0)
        "extra attempt must name the current IST date and existing normal limit"
    let granted = extra_attempts db session_id normal_limit now == 1
    raise_if (not granted && is_stored (metadata (grant_key session_id) db))
        "existing different extra-attempt record"
    ok (
        if granted
        then db
        else put_metadata (grant_key session_id) (codec.of_grant (new_grant normal_limit now)) db)

  abbrev pub is_resolved_row : String → ℕ → IntentRow × OrderRow → Bool
  is_resolved_row account now (i, o) =
      is_probe i
      && (is_buy i.side
          && (is_rejected_intent i.state
              && (is_rejected o.state
                  && (str_eq o.broker_account account && is_today now i.created_at))))

  -- Nothing was filled, and nothing of the probe is pending, held or reserved.
  abbrev pub is_clear : String → Db → Result Bool
  is_clear intent_id db =
      if any (λ (f : FillRow). str_eq f.intent_id intent_id) db.fills then ok false else do
        totals ← lifecycle_totals "route-probe" db
        ok (not totals.unresolved && (is_nought totals.quantity && totals.reserved == 0))

  abbrev pub resolved_row : String → ℕ → Db → Option (IntentRow × OrderRow) → Result Bool
  resolved_row account now db none = ok false
  resolved_row account now db (some row) =
      if is_resolved_row account now row then is_clear row.0.intent_id db else ok false

  abbrev pub resolved_probe : String → String → ℕ → Db → Option ProbeRecord → Result Bool
  resolved_probe account epoch now db none = ok false
  resolved_probe account epoch now db (some p) =
      if str_eq p.epoch epoch
      then resolved_row account now db (
          find (λ (r : IntentRow × OrderRow). str_eq r.0.intent_id p.intent_id)
            (joined_rows db.intents db.orders))
      else ok false

  unfoldable pub rejected_probe_resolved : Db → String → String → ℕ → Result Bool
  unfolding joined_rows
  rejected_probe_resolved db account epoch now =
      resolved_probe account epoch now db (read_with codec.probe_of (metadata "route_probe" db))
