-- ===== src/Orders/Rate.antt =====
-- `_rate_attempt` of dhan_cas_bot/orders.py: the four broker windows, with slots kept free for the
-- exits of everything that may have been bought. Times are microseconds.
use dhan_bot.Prelude.{
  ℕ, ◌+◌, ◌-◌, ◌*◌, ◌/◌, max, String, List, [], ◌∷◌, ◌++◌, ltb, select, sum_of, pos_part, Result,
  ok, raise_if, ◌>>=◌, ◌>>◌, if◌then◌else◌,
}
use dhan_bot.Domain.{Side, buy, sell, Instrument, Intent}
use dhan_bot.Ledger.{
  Db, IntentRow, LifecycleRow, RateRow, is_buy, pending_intents, lifecycle_totals,
}

abbrev pub second : ℕ
second = 1000000

-- The windows in seconds and their limits.
abbrev pub windows : List (ℕ × ℕ)
windows = (1, 9) ∷ (60, 250) ∷ (3600, 1000) ∷ (86400, 7000) ∷ []

-- `SELECT COUNT(*) FROM rate_events WHERE occurred_at > now - seconds`
unfoldable pub used_since : ℕ → ℕ → List RateRow → ℕ
used_since now seconds [] = 0
used_since now seconds (e ∷ es) =
    (if ltb now (e.occurred_at + seconds * second) then 1 else 0) + used_since now seconds es

-- What the purchases without a final answer may still buy.
abbrev pub pending_buys : Db → ℕ
pending_buys db =
    sum_of (λ (r : IntentRow). r.quantity)
      (select (λ (r : IntentRow). is_buy r.side) (pending_intents db))

-- What the lifecycles that are not closed hold.
unfoldable pub open_holdings : Db → List LifecycleRow → Result ℕ
open_holdings db [] = ok 0
open_holdings db (l ∷ ls) =
    let rest = open_holdings db ls in
    if l.is_closed then rest else do
      totals ← lifecycle_totals l.lifecycle_id db
      more ← rest
      ok (pos_part totals.quantity + more)

-- `freeze_qty // lot_size * lot_size`
abbrev pub child_size : Instrument → ℕ
child_size i = i.freeze_qty / i.lot_size * i.lot_size

abbrev pub exit_reserve : Side → ℕ → ℕ → ℕ
exit_reserve buy potential child = max 1 ((potential + child - 1) / child)
exit_reserve sell potential child = 0

-- The loop over the windows: each must have room for this order and the reserve.
unfoldable pub check_windows : ℕ → ℕ → List RateRow → List (ℕ × ℕ) → Result (Unit {0})
check_windows now reserve events [] = ok tt
check_windows now reserve events ((seconds, limit) ∷ ws) =
    raise_if (ltb limit (used_since now seconds events + 1 + reserve)) "RATE_CAPACITY"
    >> check_windows now reserve events ws

unfoldable pub rate_attempt : ℕ → Intent → String → Db → Result Db
rate_attempt now x attempt_id db = do
  holdings ← open_holdings db db.lifecycles
  let potential = pending_buys db + holdings
  let reserve = exit_reserve x.side potential (child_size x.instrument)
  check_windows now reserve db.rate_events windows
  ok (record db {
    rate_events =
        db.rate_events ++ record { event_id = attempt_id; occurred_at = now; kind = x.side } ∷ [];
  })
