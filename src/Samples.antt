-- ===== src/Samples.antt =====
-- Concrete values on which the tests of the components run.
use dhan_bot.Prelude.{none, some, [], ◌∷◌}
use dhan_bot.Domain.{Instrument, nse_fno, ce, OptionBook, Intent, buy, Fill}
use dhan_bot.Ledger.{BrokerOrder, traded}

-- A NIFTY call of 75 units a lot with a tick of five paise and a band from 1 to 200 rupees.
abbrev pub call_option : Instrument
call_option = record {
  security_id = "45001";
  underlying = "NIFTY";
  segment = nse_fno;
  expiry = 739541;
  option_type = ce;
  strike = 250000000;
  lot_size = 75;
  tick_size = 500;
  freeze_qty = 1800;
  lower_limit = some 10000;
  upper_limit = some 2000000;
}

abbrev pub depth_book : OptionBook
depth_book = record {
  instrument = call_option;
  bids =
      record { price = 1000000; quantity = 0 }
      ∷ record { price = 999500; quantity = 75 }
      ∷ record { price = 999000; quantity = 300 }
      ∷ [];
  asks =
      record { price = 1000500; quantity = 150 } ∷ record { price = 1001000; quantity = 600 } ∷ [];
  epoch = "epoch-1";
  received_ns = 1;
}

abbrev pub purchase : Intent
purchase = record {
  intent_id = "buy-1";
  side = buy;
  instrument = call_option;
  quantity = 75;
  limit_price = 1000500;
  client_order_id = "c1";
  created_at = 1;
  lifecycle_id = "life-1";
}

abbrev pub first_fill : Fill
first_fill = record {
  trade_id = "t1";
  order_id = "o1";
  security_id = "45001";
  quantity = 75;
  price = 1000000;
  fees = 0;
  occurred_at = 5;
}

abbrev pub traded_order : BrokerOrder
traded_order = record {
  order_id = "o1";
  correlation_id = some "c1";
  client_id = none;
  security_id = some "45001";
  transaction_type = some "BUY";
  exchange_segment = none;
  product_type = none;
  status = traded;
  filled_quantity = some 75;
  other_keys = "{}";
}
