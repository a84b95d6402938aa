-- ===== src/Governor/Windows.antt =====
-- `RateGovernor` of dhan_cas_bot/governor.py. Times are microseconds.
use dhan_bot.Prelude.{
  ℕ, zero, suc, ◌+◌, ◌*◌, max, leb, ltb, List, [], ◌∷◌, ◌++◌, Result, ok, err, raise_if, ◌>>◌,
  if◌then◌else◌,
}

-- A limit and its window in seconds.
pub record Limit : Type 0 where
  pub count : ℕ
  pub seconds : ℕ

abbrev pub default_limits : List Limit
default_limits =
    record { count = 10; seconds = 1 }
    ∷ record { count = 250; seconds = 60 }
    ∷ record { count = 1000; seconds = 3600 }
    ∷ record { count = 7000; seconds = 86400 }
    ∷ []

abbrev pub microseconds : ℕ → ℕ
microseconds s = s * 1000000

unfoldable pub horizon : List Limit → ℕ
horizon [] = 0
horizon (l ∷ ls) = max l.seconds (horizon ls)

-- `while self.events and (now - self.events[0]) >= horizon: popleft`
unfoldable pub drop_old : ℕ → ℕ → List ℕ → List ℕ
drop_old now seconds [] = []
drop_old now seconds (e ∷ es) =
    let rest = drop_old now seconds es in
    if leb (e + microseconds seconds) now then rest else e ∷ es

-- `sum((now - event) < seconds for event in self.events)`
unfoldable pub recent : ℕ → ℕ → List ℕ → ℕ
recent now seconds [] = 0
recent now seconds (e ∷ es) =
    (if ltb now (e + microseconds seconds) then 1 else 0) + recent now seconds es

unfoldable pub check_limits : ℕ → ℕ → List ℕ → List Limit → Result (Unit {0})
check_limits now count events [] = ok tt
check_limits now count events (l ∷ ls) =
    raise_if (ltb l.count (recent now l.seconds events + count)) "Dhan rate bucket exhausted"
    >> check_limits now count events ls

abbrev pub repeat : ℕ → ℕ → List ℕ
repeat zero now = []
repeat (suc n) now = now ∷ repeat n now

abbrev pub append_if_ok : Result (Unit {0}) → List ℕ → ℕ → ℕ → Result (Unit {0}) × List ℕ
append_if_ok (ok u) events count now = (ok u, events ++ repeat count now)
append_if_ok (err e) events count now = (err e, events)

-- The events that are left stay dropped when a limit refuses.
unfoldable pub admit : List Limit → ℕ → ℕ → List ℕ → Result (Unit {0}) × List ℕ
admit limits now count events =
    let kept = drop_old now (horizon limits) events in
    if leb count 0
    then (err "rate count must be positive", events)
    else append_if_ok (check_limits now count kept limits) kept count now
