-- ===== src/Route/Qualify.antt =====
-- `RouteQualifier` of dhan_cas_bot/route.py: a probe is one lot far below the market, submitted
-- within the budgets of the session and of the mandate. What is asked of the broker, the clock and
-- the drawn identities are arguments.
use dhan_bot.Prelude.{
  ℕ, ◌+◌, ◌*◌, String, text_append, str_eq, Bool, true, false, Option, none, some, [], not, ◌||◌,
  ltb, leb, ceil_div, ℤ, pos, ◌+ℤ◌, ltb_ℤ, leb_ℤ, pos_part, Result, ok, err, if◌then◌else◌,
}
use dhan_bot.Domain.{
  buy, Instrument, Intent, Level, OptionBook, FundsSnapshot, top_bid, check_intent,
}
use dhan_bot.Risk.{default_fees, worst_case_entry_cash, reserve_cash}
use dhan_bot.Ledger.{lifecycle_totals, counter, set_counter, put_metadata}
use dhan_bot.Orders.Action.{Action, pure, lift, gets, ◌>>=◌, ◌>>◌, refuse_if, modify}
use dhan_bot.Orders.{Reply, failed, ambiguous, placed, submit}
use dhan_bot.Route.Grants.{Codec, ProbeRecord, extra_attempts, is_rejected}
use dhan_bot.Route.Probe.{lowest_price}

pub record RouteProof : Type 0 where
  pub epoch : String
  pub order_id : String
  pub account_id : String
  pub accepted_at : ℕ
  pub zero_fill : Bool

-- `account_id` is the broker's.
pub record RouteQualifier : Type 0 where
  pub account_id : String
  pub session_id : String
  pub max_attempts : ℕ
  pub debit_cap : ℕ
  pub mandate_spend_cap : ℕ

unfoldable pub new_qualifier : String → String → ℤ → ℤ → ℤ → Result RouteQualifier
new_qualifier account session attempts debit spend =
    if leb_ℤ attempts (pos 0) || (leb_ℤ debit (pos 0) || leb_ℤ spend (pos 0))
    then err "qualification budgets must be finite and positive"
    else ok (record {
      account_id = account;
      session_id = session;
      max_attempts = pos_part attempts;
      debit_cap = pos_part debit;
      mandate_spend_cap = pos_part spend;
    })

-- What comes from outside during a qualification: the clock at its four readings, the drawn
-- identities, the funds, and the answer to the order with the account that it names.
pub record Outside : Type 0 where
  pub checked_at : ℕ
  pub created_at : ℕ
  pub sent_at : ℕ
  pub proved_at : ℕ
  pub intent_id : String
  pub client_id : String
  pub attempt_id : String
  pub funds : Result FundsSnapshot
  pub reply : Reply
  pub reply_account : Option String

abbrev pub attempts_key : String → String
attempts_key session = text_append "probe.attempts:" session

abbrev pub debit_key : String → String
debit_key session = text_append "probe.debit:" session

-- The lowest price of the band, rounded up to a tick.
abbrev pub probe_price : Instrument → ℕ
probe_price i = ceil_div (lowest_price i) i.tick_size * i.tick_size

abbrev pub no_lot : Instrument → Option Level → Bool
no_lot i none = true
no_lot i (some bid) = ltb bid.quantity i.lot_size

abbrev pub not_below : ℕ → Option Level → Bool
not_below price none = true
not_below price (some bid) = leb bid.price price

-- The price of the probe, where the book has a bid for a lot above it, and its worst-case debit.
unfoldable pub probe_cost : OptionBook → Action ℕ
probe_cost book = do
  refuse_if (no_lot book.instrument (top_bid book)) "no one-lot bid for qualification"
  refuse_if (not_below (probe_price book.instrument) (top_bid book))
      "no positive non-marketable probe price"
  cash ←
      lift (
        worst_case_entry_cash book.instrument.lot_size (probe_price book.instrument) 1 default_fees)
  pure (reserve_cash cash)

abbrev pub probe_intent : Instrument → Outside → Intent
probe_intent i o = record {
  intent_id = o.intent_id;
  side = buy;
  instrument = i;
  quantity = i.lot_size;
  limit_price = probe_price i;
  client_order_id = o.client_id;
  created_at = o.created_at;
  lifecycle_id = "route-probe";
}

abbrev pub is_foreign : String → Option String → Bool
is_foreign account none = false
is_foreign account (some a) = not (str_eq a account)

abbrev pub reply_rejected : Reply → Bool
reply_rejected (failed e) = false
reply_rejected ambiguous = false
reply_rejected (placed o) = is_rejected o.status

abbrev pub proof_of : String → String → ℕ → String → RouteProof
proof_of epoch account at order_id = record {
  epoch = epoch;
  order_id = order_id;
  account_id = account;
  accepted_at = at;
  zero_fill = false;
}

-- The three counters and the record of the probe, before the order goes out.
unfoldable pub charge : Codec → String → ProbeRecord → ℤ → ℤ → ℤ → Action (Unit {0})
charge codec session p attempts spent debit = do
  modify (set_counter (attempts_key session) attempts)
  modify (set_counter "probe.spent" spent)
  modify (set_counter (debit_key session) debit)
  modify (put_metadata "route_probe" (codec.of_probe p))

-- The submission and the checks of its answer.
unfoldable pub send_probe : RouteQualifier → Outside → String → Intent → ℕ → Action RouteProof
send_probe q o epoch x cost = do
  order_id ← submit o.sent_at q.account_id x cost true o.attempt_id (ok []) o.reply
  refuse_if (is_foreign q.account_id o.reply_account) "qualification response account mismatch"
  refuse_if (reply_rejected o.reply) "rejected probe cannot qualify route"
  pure (proof_of epoch q.account_id o.proved_at order_id)

-- The checks of the budgets: the attempts so far, the session's debit so far, what the probes have
-- spent or reserved, and the cost of one more.
pub record Budget : Type 0 where
  pub attempts : ℤ
  pub debit : ℤ
  pub spent : ℕ
  pub cost : ℕ

-- The check of both debit budgets.
abbrev pub check_debit : RouteQualifier → ℤ → ℕ → ℕ → ℤ → Action Budget
check_debit q attempts spent cost debit = do
  refuse_if (ltb_ℤ (pos q.debit_cap) (debit +ℤ pos cost) || ltb q.mandate_spend_cap (spent + cost))
      "qualification debit budget exhausted"
  pure (record { attempts = attempts; debit = debit; spent = spent; cost = cost })

unfoldable pub budgeted : Codec → RouteQualifier → ℕ → OptionBook → Action Budget
unfolding probe_cost
budgeted codec q now book = do
  attempts ← gets (λ db. ok (counter (attempts_key q.session_id) db))
  totals ← gets (lifecycle_totals "route-probe")
  extra ← gets (λ db. ok (extra_attempts codec db q.session_id q.max_attempts now))
  refuse_if (leb_ℤ (pos (q.max_attempts + extra)) attempts) "qualification attempt budget exhausted"
  cost ← probe_cost book
  debit ← gets (λ db. ok (counter (debit_key q.session_id) db))
  check_debit q attempts (totals.entry_debit + totals.reserved) cost debit

unfoldable pub qualify : Codec → RouteQualifier → Outside → OptionBook → String → Action RouteProof
qualify codec q o book epoch = do
  b ← budgeted codec q o.checked_at book
  funds ← lift o.funds
  refuse_if
      (not (str_eq funds.broker_account q.account_id) || ltb_ℤ funds.spendable_cash (pos b.cost))
      "qualification cash unavailable"
  x ← lift (check_intent (probe_intent book.instrument o))
  charge codec q.session_id
      (record { epoch = epoch; correlation_id = x.client_order_id; intent_id = x.intent_id })
      (b.attempts +ℤ pos 1) (pos (b.spent + b.cost)) (b.debit +ℤ pos b.cost)
  send_probe q o epoch x b.cost
