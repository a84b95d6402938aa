-- ===== src/Ledger/Exposure.antt =====
-- What a lifecycle has spent and holds in reserve stays within what its purchases reserved:
-- `lifecycle_totals` of dhan_cas_bot/ledger.py with the fee envelope of dhan_cas_bot/risk.py.
use dhan_bot.Risk.Budget.{le-reserve_cash}
use dhan_bot.Prelude.{
  ℕ, ◌+◌, ◌*◌, ◌≤◌, ◌<◌, ◌≡◌, refl, arith, max, String, str_eq, List, [], ◌∷◌, All, sum_of, select,
  ok, mul_mono, if◌then◌else◌, ◌==◌, ◌-ℤ◌, pos, ◌+ℤ◌,
}
use dhan_bot.Domain.{Side, buy, sell}
use dhan_bot.Risk.{default_fees, buy_fees, ceil_paise, reserve_cash, worst_case_entry_cash}
use dhan_bot.Risk.Amounts.{buy_amount, sell_amount, buy-eq, sell-eq, buy_amount_mono, whole_paise}
use dhan_bot.Risk.Envelope.{entry_amount, entry-eq, entry_amount_lem}
use dhan_bot.Ledger.Tables.{IntentRow, FillRow, Db, SettlementRow}
use dhan_bot.Ledger.Intents.{is_final}
use dhan_bot.Ledger.Totals.{
  Totals, no_totals, fills_of, units, turnover_of, reported_fees, intent_cost, add_side, add_intent,
  add_intents, settle, lifecycle_totals,
}

-- Every fill is at the limit price or better.
abbrev PricedWithin : ℕ → List FillRow → Type 0
PricedWithin limit = All (λ (f : FillRow). f.price ≤ limit)

turnover-le-limit :
    (limit : ℕ) (fs : List FillRow) → PricedWithin limit fs → turnover_of fs ≤ units fs * limit
turnover-le-limit limit [] h = omega arith
turnover-le-limit limit (f ∷ fs) h = omega (
  arith,
  turnover-le-limit limit fs h.1,
  mul_mono f.price limit f.quantity f.quantity h.0 (omega arith),
)

abbrev spent : Db → IntentRow → ℕ
spent db r =
    let fs = fills_of r.intent_id db.fills in
    if units fs == 0
    then 0
    else max (reported_fees r.intent_id db fs)
        (ceil_paise (buy_amount default_fees (turnover_of fs) 1))

intent_cost-eq :
    (db : Db) (r : IntentRow)
    → r.side ≡ buy
    → intent_cost db r (fills_of r.intent_id db.fills) ≡ ok (spent db r)
unfolding intent_cost
intent_cost-eq db r h =
    rw h (rw (buy-eq default_fees (turnover_of (fills_of r.intent_id db.fills)) 1 (omega arith)))

-- The purchase is backed: its reservation is what `OrderManager.submit` requires at least, it is
-- filled within its quantity and limit, and its reported fees are within the modelled ones.
pub record IsBacked (db : Db) (r : IntentRow) : Type 0 where
  pub has_quantity : 0 < r.quantity
  pub has_price : 0 < r.price
  pub reservation :
      (cash : ℕ)
      → worst_case_entry_cash r.quantity r.price 1 default_fees ≡ ok cash
      → reserve_cash cash ≤ r.reserved_cash
  pub within_quantity : units (fills_of r.intent_id db.fills) ≤ r.quantity
  pub within_limit : PricedWithin r.price (fills_of r.intent_id db.fills)
  pub within_fees :
      (fee : ℕ)
      → buy_fees default_fees (turnover_of (fills_of r.intent_id db.fills)) 1 ≡ ok fee
      → reported_fees r.intent_id db (fills_of r.intent_id db.fills) ≤ fee

spent-le-reserved :
    (db : Db) (r : IntentRow)
    → IsBacked db r
    → turnover_of (fills_of r.intent_id db.fills) + spent db r ≤ r.reserved_cash
spent-le-reserved db r h =
    let fs = fills_of r.intent_id db.fills in
    let t = turnover_of fs in
    let f = default_fees in
    let reserved =
      h.reservation (entry_amount f r.quantity r.price 1)
        (entry-eq f r.quantity r.price 1 h.has_quantity h.has_price (omega arith)) in
    let reported = h.within_fees (buy_amount f t 1) (buy-eq f t 1 (omega arith)) in
    let bought = turnover-le-limit r.price fs h.within_limit in
    let capped = mul_mono (units fs) r.quantity r.price r.price h.within_quantity (omega arith) in
    let turnover : t ≤ r.quantity * r.price = omega (arith, bought, capped) in
    let fee = buy_amount_mono f t (r.quantity * r.price) 1 1 turnover (omega arith) in
    let cost : spent db r ≤ buy_amount f t 1 = rw (whole_paise t) (ground arith) in
    omega (
      arith,
      reserved,
      cost,
      fee,
      turnover,
      entry_amount_lem f r.quantity r.price 1,
      le-reserve_cash (entry_amount f r.quantity r.price 1),
    )

-- A lifecycle's debit and reserve after one more intent.
add_intent-buy :
    (db : Db) (t : Totals) (r : IntentRow)
    → r.side ≡ buy
    → IsBacked db r
    → (t' : Totals) × (add_intent db t r ≡ ok t')
      × (t.entry_debit + t.reserved ≤ t'.entry_debit + t'.reserved)
      × (t'.entry_debit + t'.reserved ≤ t.entry_debit + t.reserved + r.reserved_cash)
unfolding add_intent
add_intent-buy db t r e h =
    let fs = fills_of r.intent_id db.fills in
    (
      add_side buy (is_final db r) r (units fs) (turnover_of fs) (spent db r) t,
      rw (intent_cost-eq db r e) (rw e),
      omega arith,
      ground (arith, spent-le-reserved db r h),
    )

add_intent-sell :
    (db : Db) (t : Totals) (r : IntentRow)
    → r.side ≡ sell
    → (t' : Totals) × (add_intent db t r ≡ ok t')
      × (t'.entry_debit ≡ t.entry_debit)
      × (t'.reserved ≡ t.reserved)
unfolding add_intent intent_cost
add_intent-sell db t r e =
    let fs = fills_of r.intent_id db.fills in
    let fee = ceil_paise (sell_amount default_fees (turnover_of fs) 1) in
    let cost = if units fs == 0 then 0 else max (reported_fees r.intent_id db fs) fee in
    (
      add_side sell (is_final db r) r (units fs) (turnover_of fs) cost t,
      rw e (rw (sell-eq default_fees (turnover_of fs) 1 (omega arith))),
      refl,
      refl,
    )

-- The reservations of the purchases among some intents.
abbrev reservation_of : Side → ℕ → ℕ
reservation_of buy cash = cash
reservation_of sell cash = 0

abbrev pub reservations : List IntentRow → ℕ
reservations = sum_of (λ (r : IntentRow). reservation_of r.side r.reserved_cash)

abbrev Grows : Totals → Totals → ℕ → Type 0
Grows t t' amount = t'.entry_debit + t'.reserved ≤ t.entry_debit + t.reserved + amount

add_intent-within :
    (db : Db) (t : Totals) (r : IntentRow) (s : Side)
    → r.side ≡ s
    → (r.side ≡ buy → IsBacked db r)
    → (t' : Totals) × (add_intent db t r ≡ ok t')
      × Grows t t' (reservation_of r.side r.reserved_cash)
add_intent-within db t r buy e h =
    let (t', step, _, bound) = add_intent-buy db t r e (h e) in (t', step, rw e bound)
add_intent-within db t r sell e h =
    let (t', step, debit, kept) = add_intent-sell db t r e in
    (t', step, rw e (omega (arith, debit, kept)))

add_intents-within :
    (db : Db) (t : Totals) (rs : List IntentRow)
    → All (λ (r : IntentRow). r.side ≡ buy → IsBacked db r) rs
    → (t' : Totals) × (add_intents db t rs ≡ ok t') × Grows t t' (reservations rs)
unfolding add_intents
add_intents-within db t [] h = (t, refl, omega arith)
add_intents-within db t (r ∷ rs) h =
    let (mid, step, bound) = add_intent-within db t r r.side refl h.0 in
    let (t', rest, total) = add_intents-within db mid rs h.1 in
    (t', rw step rest, omega (arith, bound, total))

settle-keeps :
    (t : Totals) (ss : List SettlementRow)
    → ((settle t ss).entry_debit ≡ t.entry_debit) × ((settle t ss).reserved ≡ t.reserved)
settle-keeps t [] = (refl, refl)
settle-keeps t (s ∷ ss) =
    settle-keeps
      (record t {
        quantity = t.quantity -ℤ pos s.quantity;
        sale_credit = t.sale_credit +ℤ s.net_credit;
      })
      ss

abbrev pub intents_of : String → Db → List IntentRow
intents_of id db = select (λ (r : IntentRow). str_eq r.lifecycle_id id) db.intents

-- If every purchase of a lifecycle is backed (reserved as `submit` requires, filled within its
-- quantity and its limit, charged within the modelled fees), then the debit of its entries and
-- what its open purchases still hold in reserve are together at most the sum of the reservations
-- of its purchases, whichever of them are open, filled in part or done.
pub lifecycle_totals-within :
    (id : String) (db : Db) (t : Totals)
    → All (λ (r : IntentRow). r.side ≡ buy → IsBacked db r) (intents_of id db)
    → lifecycle_totals id db ≡ ok t
    → t.entry_debit + t.reserved ≤ reservations (intents_of id db)
unfolding lifecycle_totals
lifecycle_totals-within id db t backed h =
    let (sum, e, bound) = add_intents-within db no_totals (intents_of id db) backed in
    let ss = select (λ (s : SettlementRow). str_eq s.lifecycle_id id) db.settlements in
    let kept = settle-keeps sum ss in
    let h' = rw e at h in
    let done : settle sum ss ≡ t = ground arith in
    rw (← done) (omega (arith, bound, kept.0, kept.1))
