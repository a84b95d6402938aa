-- ===== src/Ledger/Tests.antt =====
-- Runs of dhan_cas_bot/ledger.py on a small database, and the theorems at concrete inputs.
use dhan_bot.Risk.{buy_fees, common_fees, upper, ceil_paise, worst_case_entry_cash, reserve_cash}
use dhan_bot.Ledger.Repeat.{record_fill_once-idempotent}
use dhan_bot.Ledger.Evidence.{run-keeps-terminal}
use dhan_bot.Ledger.Exposure.{lifecycle_totals-within, reservations, intents_of, IsBacked}
use dhan_bot.Ledger.Capacity.{allowed, run-IsFit}
use dhan_bot.Ledger.Intents.{
  create_intent, record_attempt, recovery_closed_valid, reopen_recovery_closed,
}
use dhan_bot.Ledger.Totals.{Totals, lifecycle_totals, add_intents, add_intent, intent_cost}
use dhan_bot.Ledger.Orders.{
  record_fill_once, record_order, repeat_fill, find_legacy, new_fill, put_order,
}
use dhan_bot.Prelude.{
  ◌+◌, ◌≤◌, ◌≡◌, refl, arith, some, [], ◌∷◌, pos, true, false, ok, List, ◌+ℤ◌, ◌-ℤ◌,
}
use dhan_bot.Domain.{buy, Fill}
use dhan_bot.Samples.{purchase, first_fill, traded_order}
use dhan_bot.Ledger.Tables.{
  Db, empty_db, working, accepted, sent, joined, IntentRow, FillRow, filled_quantity, traded,
  find_order, OrderRow, find_fill, is_terminal, put_state, find_intent,
}
use dhan_bot.Ledger.History.{Call, create, attempt, order, fill, run, apply}

abbrev stale : Fill
stale = record first_fill { trade_id = "t2"; quantity = 1 }

-- A purchase, its order, its fill twice, a fill too many, and a late report of an earlier state.
abbrev calls : List Call
calls =
    create purchase 80000000
    ∷ attempt 2 "a1" "buy-1" accepted
    ∷ order "o1" "buy-1" "acct" traded traded_order
    ∷ fill first_fill "buy-1"
    ∷ fill first_fill "buy-1"
    ∷ fill stale "buy-1"
    ∷ order "o1" "buy-1" "acct" (working "PENDING") traded_order
    ∷ []

abbrev row : IntentRow
row = record {
  intent_id = "buy-1";
  client_order_id = "c1";
  lifecycle_id = "life-1";
  side = buy;
  security_id = "45001";
  quantity = 75;
  price = 1000500;
  state = sent;
  reserved_cash = 80000000;
  created_at = 1;
}

abbrev stored : OrderRow
stored = record {
  order_id = "o1";
  intent_id = "buy-1";
  broker_account = "acct";
  state = traded;
  payload = traded_order;
}

abbrev bought : FillRow
bought = record {
  trade_id = joined "o1" "t1";
  order_id = "o1";
  intent_id = "buy-1";
  security_id = "45001";
  quantity = 75;
  price = 1000000;
  fees = 0;
  occurred_at = 5;
}

abbrev held : Db
held = record empty_db { intents = row ∷ []; orders = stored ∷ []; fills = bought ∷ [] }

calls-run : (run calls empty_db).fills ≡ bought ∷ []
unfolding run apply create_intent record_attempt record_order record_fill_once put_state find_order
    find_fill find_legacy new_fill find_intent filled_quantity reopen_recovery_closed put_order
    repeat_fill
calls-run = refl

run-IsFit_example :
    filled_quantity "buy-1" (run calls empty_db).fills
    ≤ allowed "buy-1" (run calls empty_db).intents
run-IsFit_example = run-IsFit calls "buy-1"

run-keeps-terminal_example :
    (r : OrderRow) × (find_order "o1" (run calls held).orders ≡ some r)
    × (r.intent_id ≡ "buy-1")
    × (r.broker_account ≡ "acct")
    × (is_terminal r.state ≡ true)
unfolding find_order
run-keeps-terminal_example = run-keeps-terminal calls stored held refl refl

record_fill_once-idempotent_example : record_fill_once first_fill "buy-1" held ≡ ok (false, held)
unfolding record_fill_once find_fill repeat_fill
record_fill_once-idempotent_example =
    record_fill_once-idempotent first_fill "buy-1" held false held (refl, tt) refl

abbrev totals_held : Totals
totals_held = record {
  entry_debit = 75277800;
  sale_credit = pos 0;
  quantity = pos 75;
  reserved = 4722200;
  unresolved = true;
}

totals_run : lifecycle_totals "life-1" held ≡ ok totals_held
unfolding lifecycle_totals add_intents add_intent intent_cost buy_fees common_fees upper ceil_paise
    recovery_closed_valid ◌+ℤ◌ ◌-ℤ◌ filled_quantity
totals_run = refl

held-IsBacked : IsBacked held row
unfolding buy_fees common_fees upper ceil_paise worst_case_entry_cash reserve_cash
held-IsBacked = record {
  has_quantity = omega arith;
  has_price = omega arith;
  reservation = λ cash h. ground arith;
  within_quantity = omega arith;
  within_limit = (omega arith, tt);
  within_fees = λ fee h. omega arith;
}

lifecycle_totals-within_example :
    totals_held.entry_debit + totals_held.reserved ≤ reservations (intents_of "life-1" held)
lifecycle_totals-within_example =
    lifecycle_totals-within "life-1" held totals_held ((λ h. held-IsBacked), tt) totals_run
