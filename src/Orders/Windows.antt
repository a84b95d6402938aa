-- ===== src/Orders/Windows.antt =====
-- The broker's rate windows hold, and a purchase leaves the slots that exits may need.
use dhan_bot.Prelude.{
  ℕ, ◌+◌, ◌-◌, ◌*◌, ◌≤◌, ◌<◌, ◌≡◌, ◌↔◌, refl, arith, String, List, [], ◌∷◌, ◌++◌, All, ok,
  Bool-cases, ltb, inl, inr, >>=-eq-ok, ceil_div, le-ceil_div, mul_mono, max,
}
use dhan_bot.Domain.{buy, Intent}
use dhan_bot.Ledger.{Db, RateRow}
use dhan_bot.Orders.Rate.{
  windows, used_since, pending_buys, open_holdings, child_size, exit_reserve, check_windows,
  rate_attempt,
}

-- As time goes on events only leave a window.
used_since_later :
    (now later seconds : ℕ) (es : List RateRow)
    → now ≤ later
    → used_since later seconds es ≤ used_since now seconds es
unfolding used_since
used_since_later now later seconds [] h = omega arith
used_since_later now later seconds (e ∷ es) h =
    ground (arith, used_since_later now later seconds es h)

used_since-append :
    (now seconds : ℕ) (es : List RateRow) (e : RateRow)
    → used_since now seconds (es ++ e ∷ []) ≤ used_since now seconds es + 1
unfolding used_since
used_since-append now seconds [] e = ground arith
used_since-append now seconds (x ∷ es) e = ground (arith, used_since-append now seconds es e)

-- Each window has room for one more event and for the reserve.
abbrev pub HasRoom : ℕ → ℕ → List RateRow → List (ℕ × ℕ) → Type 0
HasRoom now reserve es = All (λ (w : ℕ × ℕ). used_since now w.0 es + 1 + reserve ≤ w.1)

-- Each window holds at most its limit less the reserve.
abbrev pub KeepsFree : ℕ → ℕ → List RateRow → List (ℕ × ℕ) → Type 0
KeepsFree now reserve es = All (λ (w : ℕ × ℕ). used_since now w.0 es + reserve ≤ w.1)

check_windows_iff :
    (now reserve : ℕ) (es : List RateRow) (ws : List (ℕ × ℕ))
    → (check_windows now reserve es ws ≡ ok tt) ↔ HasRoom now reserve es ws
unfolding check_windows
check_windows_iff now reserve es [] = (λ h. tt, λ h. refl)
check_windows_iff now reserve es (w ∷ ws) =
    let rest = check_windows_iff now reserve es ws in
    elim (Bool-cases (ltb w.1 (used_since now w.0 es + 1 + reserve))) [
      | inl full ↦ (λ h. absurd (let e = rw full at h in cc e), λ h. absurd (ground arith))
      | inr free ↦ (λ h. (ground arith, rest.0 (rw free at h)), λ h. rw free (rest.1 h.1))
    ]

HasRoom-append :
    (now later reserve : ℕ) (es : List RateRow) (e : RateRow) (ws : List (ℕ × ℕ))
    → now ≤ later
    → HasRoom now reserve es ws
    → KeepsFree later reserve (es ++ e ∷ []) ws
HasRoom-append now later reserve es e [] h room = tt
HasRoom-append now later reserve es e (w ∷ ws) h room = (
  omega (
    arith,
    room.0,
    used_since-append now w.0 es e,
    used_since_later now later w.0 (es ++ e ∷ []) h,
  ),
  HasRoom-append now later reserve es e ws h room.1,
)

-- The slots of the reserve are enough child orders to sell everything that may be held.
exit_reserve_enough :
    (potential child : ℕ) → 0 < child → potential ≤ exit_reserve buy potential child * child
exit_reserve_enough potential child h =
    let k = ceil_div potential child in
    let e : potential + child - 1 ≡ potential + (child - 1) = omega arith in
    rw e (
      omega (
        arith,
        le-ceil_div potential child h,
        mul_mono k (max 1 k) child child (omega arith) (omega arith),
      ))

rate_attempt-ok :
    (now : ℕ) (x : Intent) (id : String) (db : Db) (held : ℕ) {db' : Db}
    → open_holdings db db.lifecycles ≡ ok held
    → rate_attempt now x id db ≡ ok db'
    → (check_windows now
          (exit_reserve x.side (pending_buys db + held) (child_size x.instrument))
          db.rate_events
          windows
        ≡ ok tt)
      × (e : RateRow) × (db'.rate_events ≡ db.rate_events ++ e ∷ [])
unfolding rate_attempt
rate_attempt-ok now x id db held h k =
    let (u, checked, rest) = >>=-eq-ok _ _ (rw h at k) in
    (checked, record { event_id = id; occurred_at = now; kind = x.side }, ground arith)

rate_attempt-admits :
    (now : ℕ) (x : Intent) (id : String) (db : Db) (held : ℕ)
    → open_holdings db db.lifecycles ≡ ok held
    → check_windows now
        (exit_reserve x.side (pending_buys db + held) (child_size x.instrument))
        db.rate_events
        windows
      ≡ ok tt
    → (db' : Db) × (rate_attempt now x id db ≡ ok db')
unfolding rate_attempt
rate_attempt-admits now x id db held h k =
    let row : RateRow = record { event_id = id; occurred_at = now; kind = x.side } in
    (record db { rate_events = db.rate_events ++ row ∷ [] }, rw h (rw k))

-- With whole lots to sell, and where the holdings of the open lifecycles compute without an error, a rate attempt succeeds exactly when each of the four windows has room for
-- one more event and the reserve; then at that time and at every later one, until another event
-- is recorded, each window holds at most its limit less the reserve. The reserve of a purchase
-- is at least one slot, and as many child orders can sell all that the pending purchases and the
-- open lifecycles may hold.
pub rate_attempt-reserves :
    (now : ℕ) (x : Intent) (id : String) (db : Db) (held : ℕ)
    → open_holdings db db.lifecycles ≡ ok held
    → 0 < child_size x.instrument
    → let potential = pending_buys db + held in
      let reserve = exit_reserve x.side potential (child_size x.instrument) in
      (((db' : Db) × (rate_attempt now x id db ≡ ok db'))
        ↔ HasRoom now reserve db.rate_events windows)
      × ((db' : Db) (later : ℕ)
          → rate_attempt now x id db ≡ ok db'
          → now ≤ later
          → KeepsFree later reserve db'.rate_events windows)
      × (x.side ≡ buy → (0 < reserve) × (potential ≤ reserve * child_size x.instrument))
rate_attempt-reserves now x id db held h size =
    let child = child_size x.instrument in
    let potential = pending_buys db + held in
    let reserve = exit_reserve x.side potential child in
    let room = check_windows_iff now reserve db.rate_events windows in
    (
      (
        λ (db', k). room.0 (rate_attempt-ok now x id db held h k).0,
        λ free. rate_attempt-admits now x id db held h (room.1 free),
      ),
      λ db' later k after.
          let (checked, e, appended) = rate_attempt-ok now x id db held h k in
          rw appended
            (HasRoom-append now later reserve db.rate_events e windows after (room.0 checked)),
      λ e. rw e (omega arith, exit_reserve_enough potential child size),
    )
