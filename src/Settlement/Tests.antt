-- ===== src/Settlement/Tests.antt =====
-- A statement with one settlement, read by dhan_cas_bot/settlement_cash.py.
use dhan_bot.Domain.{ce}
use dhan_bot.Strategy.{intrinsic}
use dhan_bot.Risk.{conditional_sale_cash, default_fees, sell_fees, common_fees, upper}
use dhan_bot.Settlement.Matched.{OfAccount, qualifying, IsOf, match_settlement-IsOf}
use dhan_bot.Settlement.Cash.{
  Receipt, match_settlement, Row, receipts, is_receipt, names_settlement, occurs, occurs_alone,
}
use dhan_bot.Prelude.{pos, refl, [], ◌∷◌, List, ℤ, ◌≡◌, ok, some, ◌-ℤ◌, ◌≢◌, none, ◌↔◌, ◌*◌}
use dhan_bot.Samples.{call_option}
use dhan_bot.Strategy.Scenes.{official}

abbrev settled : Row
settled = record {
  client_id = "acct";
  narration = "Exercise NIFTY 45001 2025-10-14";
  exchange = "NSE-FO";
  credit = pos 224500000;
  debit = pos 0;
  voucher = "V1";
}

-- The security identity is part of a longer number.
abbrev other_contract : Row
other_contract = record settled { narration = "Exercise NIFTY 450011 2025-10-14"; voucher = "V2" }

abbrev statement : List Row
statement = other_contract ∷ settled ∷ []

abbrev settled_receipt : Receipt
settled_receipt = record { voucher = "V1"; credit = pos 224500000; row = settled }

match_run :
    match_settlement statement "acct" call_option "2025-10-14" official 75
    ≡ ok (some settled_receipt)
unfolding match_settlement receipts is_receipt names_settlement occurs occurs_alone intrinsic
    conditional_sale_cash sell_fees common_fees upper ◌-ℤ◌
match_run = refl

match_settlement-IsOf_example :
    OfAccount "acct" statement
    × (low : ℤ) × (conditional_sale_cash 75 (intrinsic ce 250000000 253000000) 1 default_fees
        ≡ ok low)
    × ((some settled_receipt ≢ none) ↔ (
        qualifying call_option "2025-10-14" low
          (pos (intrinsic ce 250000000 253000000 * 75))
          statement
        ≡ 1))
    × ((x : Receipt)
        → some settled_receipt ≡ some x
        → IsOf call_option "2025-10-14" low (pos (intrinsic ce 250000000 253000000 * 75)) x)
match_settlement-IsOf_example =
    match_settlement-IsOf statement "acct" call_option "2025-10-14" official 75
      (some settled_receipt) match_run
