-- ===== src/Ledger/Totals.antt =====
-- `lifecycle_totals` of dhan_cas_bot/ledger.py: what a lifecycle has spent, earned, holds and has
-- reserved. The table of order charges exists, since the ledger creates it.
use dhan_bot.Prelude.{
  ℕ, ◌+◌, ◌-◌, ◌*◌, max, String, str_eq, ◌==◌, Bool, false, List, [], ◌∷◌, not, ◌||◌, select,
  sum_of, ℤ, pos, sub_ℕ, ◌+ℤ◌, ◌-ℤ◌, ltb_ℤ, Result, ok, raise_if, ◌>>=◌, ◌>>◌, if◌then◌else◌,
}
use dhan_bot.Domain.{Side, buy, sell}
use dhan_bot.Risk.{default_fees, buy_fees, sell_fees, ceil_paise}
use dhan_bot.Ledger.Tables.{IntentRow, FillRow, ChargeRow, SettlementRow, Db}
use dhan_bot.Ledger.Intents.{is_final}

pub record Totals : Type 0 where
  pub entry_debit : ℕ
  pub sale_credit : ℤ
  pub quantity : ℤ
  pub reserved : ℕ
  pub unresolved : Bool

abbrev pub no_totals : Totals
no_totals = record {
  entry_debit = 0;
  sale_credit = pos 0;
  quantity = pos 0;
  reserved = 0;
  unresolved = false;
}

-- `SELECT * FROM fills WHERE intent_id=?`
abbrev pub fills_of : String → List FillRow → List FillRow
fills_of id rows = select (λ (f : FillRow). str_eq f.intent_id id) rows

abbrev pub units : List FillRow → ℕ
units = sum_of (λ (f : FillRow). f.quantity)

abbrev pub turnover_of : List FillRow → ℕ
turnover_of = sum_of (λ (f : FillRow). f.price * f.quantity)

abbrev pub reported_fees : String → Db → List FillRow → ℕ
reported_fees id db fills = max (sum_of (λ (f : FillRow). f.fees) fills) (
    sum_of (λ (c : ChargeRow). c.fees)
      (select (λ (c : ChargeRow). str_eq c.intent_id id) db.charges))

abbrev pub side_fees : Side → ℕ → Result ℕ
side_fees buy turnover = buy_fees default_fees turnover 1
side_fees sell turnover = sell_fees default_fees turnover 1

-- What an intent's fills cost: the reported fees or the modelled ones, whichever is more.
unfoldable pub intent_cost : Db → IntentRow → List FillRow → Result ℕ
intent_cost db r fills = do
  modelled ← side_fees r.side (turnover_of fills)
  ok (
      if units fills == 0
      then 0
      else max (reported_fees r.intent_id db fills) (ceil_paise modelled))

abbrev pub add_side : Side → Bool → IntentRow → ℕ → ℕ → ℕ → Totals → Totals
add_side buy final r qty turnover cost t = record {
  entry_debit = t.entry_debit + (turnover + cost);
  sale_credit = t.sale_credit;
  quantity = t.quantity +ℤ pos qty;
  reserved = t.reserved + (if final then 0 else r.reserved_cash - turnover - cost);
  unresolved = t.unresolved || not final;
}
add_side sell final r qty turnover cost t = record {
  entry_debit = t.entry_debit;
  sale_credit = t.sale_credit +ℤ sub_ℕ turnover cost;
  quantity = t.quantity -ℤ pos qty;
  reserved = t.reserved;
  unresolved = t.unresolved || not final;
}

-- The body of the loop over the lifecycle's intents.
unfoldable pub add_intent : Db → Totals → IntentRow → Result Totals
add_intent db t r = do
  let fills = fills_of r.intent_id db.fills
  cost ← intent_cost db r fills
  ok (add_side r.side (is_final db r) r (units fills) (turnover_of fills) cost t)

unfoldable pub add_intents : Db → Totals → List IntentRow → Result Totals
add_intents db t [] = ok t
add_intents db t (r ∷ rs) = add_intent db t r >>= λ t'. add_intents db t' rs

abbrev pub settle : Totals → List SettlementRow → Totals
settle t [] = t
settle t (s ∷ ss) =
    settle
      (record t {
        quantity = t.quantity -ℤ pos s.quantity;
        sale_credit = t.sale_credit +ℤ s.net_credit;
      })
      ss

unfoldable pub lifecycle_totals : String → Db → Result Totals
lifecycle_totals id db = do
  t ← add_intents db no_totals (select (λ (r : IntentRow). str_eq r.lifecycle_id id) db.intents)
  raise_if (ltb_ℤ t.quantity (pos 0)) "ledger contains a net short position"
  let final = settle t (select (λ (s : SettlementRow). str_eq s.lifecycle_id id) db.settlements)
  raise_if (ltb_ℤ final.quantity (pos 0)) "settlement exceeds managed quantity"
  ok final
