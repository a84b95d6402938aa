-- ===== src/Domain/Types.antt =====
-- Enumerations and frozen dataclasses of dhan_cas_bot/domain.py, and the reading of an order book.
use dhan_bot.Prelude.{
  ℕ, ◌%◌, ◌/◌, String, Bool, Option, List, ℤ, ltb, ◌==◌, find, Result, ok, raise_if, ◌>>◌, not,
}

abbrev pub paisa : ℕ
paisa = 100

abbrev pub rupee : ℕ
rupee = 10000

pub data Segment : Type 0 where
  nse_fno nse_index : Segment

pub data OptionType : Type 0 where
  ce pe : OptionType

pub data CasPhase : Type 0 where
  cts_close cas_lm_start cas_m_stop cas_stop unknown : CasPhase

pub data Side : Type 0 where
  buy sell : Side

pub record Instrument : Type 0 where
  pub security_id : String
  pub underlying : String
  pub segment : Segment
  pub expiry : ℕ
  pub option_type : OptionType
  pub strike : ℕ
  pub lot_size : ℕ
  pub tick_size : ℕ
  pub freeze_qty : ℕ
  pub lower_limit : Option ℕ
  pub upper_limit : Option ℕ

-- `Instrument.tick`: the price in ticks. A zero tick size makes Python's division raise too.
unfoldable pub tick : Instrument → ℕ → Result ℕ
tick i price = do
  raise_if (i.tick_size == 0) "division by zero"
  raise_if (not (price % i.tick_size == 0)) "price is not tick aligned"
  ok (price / i.tick_size)

pub record Level : Type 0 where
  pub price : ℕ
  pub quantity : ℕ

pub record OptionBook : Type 0 where
  pub instrument : Instrument
  pub bids : List Level
  pub asks : List Level
  pub epoch : String
  pub received_ns : ℕ

abbrev pub has_quantity : Level → Bool
has_quantity l = ltb 0 l.quantity

unfoldable pub top_bid : OptionBook → Option Level
top_bid b = find has_quantity b.bids

unfoldable pub top_ask : OptionBook → Option Level
top_ask b = find has_quantity b.asks

pub record IndexObservation : Type 0 where
  pub value : ℕ
  pub provider_ts_ms : ℕ
  pub received_ns : ℕ
  pub epoch : String
  pub receiver_seq : ℕ
  pub frame_kind : String
  pub raw_identity : String
  pub wrapper_present : Bool

pub record CasStatus : Type 0 where
  pub phase : CasPhase
  pub updated_time_ms : ℕ
  pub trading_date : ℕ
  pub status_epoch : String

pub data DebitScope : Type 0 where
  none_scope session_scope mandate_scope : DebitScope
  other_scope : String → DebitScope

pub record Mandate : Type 0 where
  pub account_id : String
  pub strategy_id : String
  pub allocated_capital : ℤ
  pub cumulative_entry_debit_cap : Option ℤ
  pub debit_cap_scope : DebitScope
  pub reinvest_realized_profit : Bool
  pub equity_ceiling : Option ℤ
  pub probe_max_attempts_per_session : ℤ
  pub probe_entry_debit_cap_per_session : ℤ
  pub probe_spending_cap_per_mandate : ℤ
  pub live_order_authority : Bool

pub record FundsSnapshot : Type 0 where
  pub spendable_cash : ℤ
  pub strategy_equity : ℤ
  pub withdrawable_cash : ℤ
  pub collateral : ℤ
  pub broker_account : String

pub record Fill : Type 0 where
  pub trade_id : String
  pub order_id : String
  pub security_id : String
  pub quantity : ℕ
  pub price : ℕ
  pub fees : ℕ
  pub occurred_at : ℕ

-- `order_kind` is always "IOC": the check of `__post_init__` refuses any other, so it has no field.
pub record Intent : Type 0 where
  pub intent_id : String
  pub side : Side
  pub instrument : Instrument
  pub quantity : ℕ
  pub limit_price : ℕ
  pub client_order_id : String
  pub created_at : ℕ
  pub lifecycle_id : String
