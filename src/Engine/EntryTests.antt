-- ===== src/Engine/EntryTests.antt =====
-- Runs of `_allocation` and `_enter` of dhan_cas_bot/engine.py, and the theorems at concrete inputs.
use dhan_bot.Orders.{ambiguous}
use dhan_bot.Ledger.{metadata, lookup, pending_intents}
use dhan_bot.Samples.{call_option, depth_book}
use dhan_bot.Runtime.{permit_entry}
use dhan_bot.Engine.Choice.{deplete, book_id, used_depth, child_quantity}
use dhan_bot.Risk.{Allocation, start, lifecycle_ceiling, permits}
use dhan_bot.Engine.Purchase.{Choice, buy_choice}
use dhan_bot.Engine.Capital.{
  allocation, spent_by, closed_profit, counted_debit, cap_remaining, worked_capital,
}
use dhan_bot.Engine.Scenes.{mandate, rules, plain, collecting, half_past, cash_at_broker}
use dhan_bot.Engine.Entry.{entry_refusal}
use dhan_bot.Ledger.Totals.{Totals, lifecycle_totals, add_intents}
use dhan_bot.Engine.Mandated.{allocation-FitsCap, IsBankroll, FitsCap}
use dhan_bot.Engine.Entering.{entry_refusal-opens_iff, IsOpen}
use dhan_bot.Engine.Taken.{buy_choice-takes, depth}
use dhan_bot.Prelude.{
  ◌↔◌, [], none, refl, ℤ, false, pos, true, some, ◌≡◌, ok, ◌-◌, ◌-ℤ◌, ℕ, ◌+ℤ◌, ◌<◌, ◌+◌, ◌≤◌, ◌≤ℤ◌,
}

-- 30,000 rupees at the broker make the bankroll, and the cap leaves 9,000.
abbrev spendable : Allocation
spendable = record {
  bankroll = pos 300000000;
  ceiling = 100000000;
  remaining = 100000000;
  spendable_cash = 300000000;
  selected_cap_remaining = some 90000000;
}

allocation_run : allocation plain mandate cash_at_broker none collecting ≡ ok spendable
unfolding allocation closed_profit counted_debit cap_remaining lifecycle_totals add_intents start
    lifecycle_ceiling ◌+ℤ◌ ◌-ℤ◌
allocation_run = refl

allocation-FitsCap_example :
    (totals probe : Totals) × (profit : ℤ) × (spent_by none collecting.db ≡ ok totals)
    × (closed_profit collecting.db [] ≡ ok profit)
    × (lifecycle_totals "route-probe" collecting.db ≡ ok probe)
    × IsBankroll none
        (worked_capital mandate profit -ℤ (pos probe.entry_debit -ℤ probe.sale_credit))
        (pos 300000000)
        (pos 300000000)
    × ((cash : ℕ)
        → permits spendable cash ≡ true
        → (0 < cash)
          × (totals.entry_debit + totals.reserved + cash ≤ lifecycle_ceiling (pos 300000000))
          × (pos cash ≤ℤ pos 300000000)
          × FitsCap mandate (plain.of_day 739541) collecting.db cash)
allocation-FitsCap_example =
    allocation-FitsCap plain mandate cash_at_broker none collecting spendable allocation_run

admitted_run : entry_refusal rules false false [] none half_past collecting ≡ none
unfolding entry_refusal permit_entry metadata lookup pending_intents
admitted_run = refl

entry_refusal-opens_iff_example :
    (entry_refusal rules false false [] none half_past collecting ≡ none)
    ↔ IsOpen rules false false [] none half_past collecting
entry_refusal-opens_iff_example =
    entry_refusal-opens_iff rules false false [] none half_past collecting

abbrev lot_choice : Choice
lot_choice = (
  record {
    instrument = call_option;
    quantity = 75;
    limit_price = 1000500;
    edge = 141527000;
    entry = 75315300;
    reason = "CAS_LAG_V1";
  },
  book_id "45001" depth_book,
  spendable,
)

-- The book offers 750, of which 675 are left.
depth_run : depth (deplete 75 depth_book.asks) ≡ 675
unfolding deplete
depth_run = refl

buy_choice-takes_example :
    let e' =
      (buy_choice plain rules none "l1" "i1" "c1" "a1" 5 lot_choice "{}" true
        (ok [])
        ambiguous
        collecting).1 in
    depth (deplete (used_depth (book_id "45001" depth_book) e'.depth_debits) depth_book.asks)
    ≡ depth (deplete (used_depth (book_id "45001" depth_book) []) depth_book.asks)
      - child_quantity lot_choice.0
buy_choice-takes_example =
    buy_choice-takes plain rules none "l1" "i1" "c1" "a1" 5 lot_choice "{}" true (ok []) ambiguous
      collecting depth_book.asks
