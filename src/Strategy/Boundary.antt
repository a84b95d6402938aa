-- ===== src/Strategy/Boundary.antt =====
-- `select_reference` of dhan_cas_bot/strategy.py: the median of the last five distinct observations
-- before the boundary.
use dhan_bot.Prelude.{
  ℕ, ◌+◌, ◌/◌, String, str_eq, Bool, true, false, List, [], ◌∷◌, map, ◌==◌, ◌&&◌, ◌||◌, not, ltb,
  leb, select, length, Result, ok, raise_if, ◌>>◌, if◌then◌else◌, sort_by, last_n,
}
use dhan_bot.Domain.{CasPhase, cts_close, CasStatus, IndexObservation}

abbrev pub reference_max_age_ms : ℕ
reference_max_age_ms = 30000

abbrev pub max_clock_uncertainty_ms : ℕ
max_clock_uncertainty_ms = 100

-- What tells observations apart: the raw identity, or, where that is empty, the fields of the
-- text that the source formats, here and (without the sequence number) in the session engine. A raw identity is taken never to be spelled as such a text.
pub data Identity : Type 0 where
  raw : String → Identity
  made : String → ℕ → ℕ → ℕ → Identity
  seen : String → ℕ → ℕ → Identity

abbrev pub same_identity : Identity → Identity → Bool
same_identity (raw a) (raw b) = str_eq a b
same_identity (made a i j k) (made b x y z) = str_eq a b && i == x && j == y && k == z
same_identity (seen a i j) (seen b x y) = str_eq a b && i == x && j == y
same_identity _ _ = false

abbrev pub identity_of : IndexObservation → Identity
identity_of x =
    if str_eq x.raw_identity ""
    then made x.epoch x.provider_ts_ms x.receiver_seq x.value
    else raw x.raw_identity

-- An event of the reference: the raw identity, or the time and the sequence number.
pub data EventId : Type 0 where
  raw_event : String → EventId
  made_event : ℕ → ℕ → EventId

abbrev pub event_of : IndexObservation → EventId
event_of x =
    if str_eq x.raw_identity ""
    then made_event x.provider_ts_ms x.receiver_seq
    else raw_event x.raw_identity

pub record Reference : Type 0 where
  pub value : ℕ
  pub boundary_ms : ℕ
  pub event_ids : List EventId
  pub epoch : String

abbrev pub received_ms : IndexObservation → ℕ
received_ms x = x.received_ns / 1000000

-- The filter. `a >= t - 30000` is written `t <= a + 30000`.
unfoldable pub is_eligible : CasStatus → ℕ → IndexObservation → Bool
is_eligible s uncertainty x =
    str_eq x.epoch s.status_epoch
    && leb s.updated_time_ms (x.provider_ts_ms + reference_max_age_ms)
    && ltb x.provider_ts_ms s.updated_time_ms
    && leb s.updated_time_ms (received_ms x + reference_max_age_ms)
    && ltb (received_ms x + uncertainty) s.updated_time_ms
    && str_eq x.frame_kind "live_feed"
    && x.wrapper_present

-- `by_identity[identity] = item`: a later observation takes the place of an earlier one.
unfoldable pub put_observation : IndexObservation → List IndexObservation → List IndexObservation
put_observation x [] = x ∷ []
put_observation x (y ∷ ys) =
    let rest = put_observation x ys in
    if same_identity (identity_of y) (identity_of x) then x ∷ ys else y ∷ rest

unfoldable pub by_identity : List IndexObservation → List IndexObservation → List IndexObservation
by_identity table [] = table
by_identity table (x ∷ xs) = by_identity (put_observation x table) xs

-- `key=lambda x: (x.provider_ts_ms, x.receiver_seq)`
abbrev pub not_after : IndexObservation → IndexObservation → Bool
not_after x y =
    ltb x.provider_ts_ms y.provider_ts_ms
    || x.provider_ts_ms == y.provider_ts_ms && leb x.receiver_seq y.receiver_seq

unfoldable pub last_five : CasStatus → ℕ → List IndexObservation → List IndexObservation
last_five s uncertainty xs =
    last_n 5 (sort_by not_after (by_identity [] (select (is_eligible s uncertainty) xs)))

abbrev pub third : List ℕ → ℕ
third (a ∷ b ∷ c ∷ rest) = c
third _ = 0

abbrev pub is_cts_close : CasPhase → Bool
is_cts_close cts_close = true
is_cts_close _ = false

unfoldable pub select_reference : List IndexObservation → CasStatus → ℕ → Result Reference
select_reference xs s uncertainty = do
  raise_if (not (is_cts_close s.phase)) "reference boundary must be CTS_CLOSE"
  raise_if (ltb max_clock_uncertainty_ms uncertainty) "host clock uncertainty is too high"
  let five = last_five s uncertainty xs
  raise_if (not (length five == 5)) "REFERENCE_UNAVAILABLE: five distinct observations required"
  ok (record {
    value = third (sort_by leb (map (λ (x : IndexObservation). x.value) five));
    boundary_ms = s.updated_time_ms;
    event_ids = map event_of five;
    epoch = s.status_epoch;
  })
