-- ===== src/Route/Tests.antt =====
-- Tests of the probe of the route, and an instance of its theorem.
use dhan_bot.Prelude.{◌≡◌, ◌⊎◌, refl, none, String, ok, err, pos}
use dhan_bot.Ledger.{
  empty_db, counter, set_counter, lifecycle_totals, add_intents, metadata, lookup, upsert,
}
use dhan_bot.Orders.{placed}
use dhan_bot.Orders.Action.{Account}
use dhan_bot.Route.Grants.{Codec, extra_attempts}
use dhan_bot.Route.Qualify.{RouteQualifier, Outside, attempts_key, qualify, budgeted}
use dhan_bot.Route.Budget.{IsCharged, qualify-IsCharged}
use dhan_bot.Samples.{depth_book, traded_order}

abbrev texts : Codec
texts = record {
  day_text = λ d. "2026-01-05";
  of_grant = λ g. "grant";
  grant_of = λ t. none;
  of_probe = λ p. "probe";
  probe_of = λ t. none;
}

abbrev qualifier : RouteQualifier
qualifier = record {
  account_id = "acct";
  session_id = "2026-01-05";
  max_attempts = 2;
  debit_cap = 5000000;
  mandate_spend_cap = 9000000;
}

abbrev answers : Outside
answers = record {
  checked_at = 1000;
  created_at = 2000;
  sent_at = 3000;
  proved_at = 4000;
  intent_id = "probe-1";
  client_id = "p1";
  attempt_id = "a1";
  funds = ok (record {
    spendable_cash = pos 90000000;
    strategy_equity = pos 90000000;
    withdrawable_cash = pos 90000000;
    collateral = pos 0;
    broker_account = "acct";
  });
  reply = placed traded_order;
  reply_account = none;
}

abbrev tried : Account
tried = record { db = set_counter (attempts_key "2026-01-05") (pos 2) empty_db; revision = 0 }

-- After two attempts the third is refused, and nothing changes.
qualify_exhausted :
    qualify texts qualifier answers depth_book "epoch-1" tried
    ≡ (err "qualification attempt budget exhausted", tried)
unfolding qualify budgeted counter set_counter lifecycle_totals extra_attempts add_intents metadata
    lookup upsert
qualify_exhausted = refl

qualify-IsCharged_example :
    let s : Account = record { db = empty_db; revision = 0 } in
    ((e : String) × (qualify texts qualifier answers depth_book "epoch-1" s ≡ (err e, s)))
    ⊎ IsCharged texts qualifier answers.checked_at depth_book s
        (qualify texts qualifier answers depth_book "epoch-1" s).1
qualify-IsCharged_example =
    qualify-IsCharged texts qualifier answers depth_book "epoch-1"
      (record { db = empty_db; revision = 0 })
