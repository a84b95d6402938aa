-- ===== src/Feeds/Quotes.antt =====
-- The values of dhan_cas_bot/dhan_feed.py and the part of dhan_cas_bot/domain.py that it fills: a
-- decoded packet, the statistics of the market that come with a book, and prices read from floats.
-- A decimal is a whole number with the number of its decimal places. Reading four bytes as a float
-- (`struct.unpack`), and the decimal that `Decimal(str(raw))` gives for it, are a parameter of the
-- decoding; `Reading` tells the cases that the source tells apart (the negative infinity is a
-- negative value).
use Prim.Native.Nat.{◌^◌}
use dhan_bot.Prelude.{
  ℕ, ◌+◌, ◌-◌, ◌*◌, ◌/◌, ◌%◌, max, String, Bool, Option, List, ltb, leb, ◌==◌, Result, ok, raise_if,
  err, ◌>>◌, if◌then◌else◌,
}
use dhan_bot.Domain.{Level, Segment, OptionBook}

pub record Decimal : Type 0 where
  pub mantissa : ℕ
  pub places : ℕ

pub data Reading : Type 0 where
  not_a_number : Reading
  infinite : Reading
  negative_value : Reading
  value : Decimal → Reading

-- The quantities are unsigned words and the prices were tested before, so that the checks of
-- `MarketStatistics.__post_init__` have nothing left to refuse.
pub record MarketStatistics : Type 0 where
  pub last_price : Decimal
  pub last_quantity : ℕ
  pub average_price : Decimal
  pub volume : ℕ
  pub total_sell_quantity : ℕ
  pub total_buy_quantity : ℕ
  pub open_interest : ℕ
  pub oi_day_high : ℕ
  pub oi_day_low : ℕ
  pub day_open : Decimal
  pub day_close : Option Decimal
  pub day_high : Decimal
  pub day_low : Decimal

pub record DhanPacket : Type 0 where
  pub packet_code : ℕ
  pub declared_length : ℕ
  pub segment : Segment
  pub security_id : String
  pub bids : List Level
  pub asks : List Level
  pub provider_ts_ms : Option ℕ
  pub statistics : Option MarketStatistics

-- An `OptionBook` with the two of its fields that the rest of the program's model has no use for.
pub record QuotedBook : Type 0 where
  pub book : OptionBook
  pub provider_ts_ms : Option ℕ
  pub statistics : Option MarketStatistics

-- `to_integral_value` of a quotient: to the nearest whole number, a tie to the even one.
unfoldable pub half_even : ℕ → ℕ → ℕ
half_even top bottom =
    let whole = top / bottom in
    let twice = 2 * (top % bottom) in
    if ltb twice bottom then whole else if ltb bottom twice then whole + 1 else whole + whole % 2

-- The nearest price on a tick, in 1/10000 rupee.
unfoldable pub nearest_on_tick : ℕ → Decimal → ℕ
unfolding half_even
nearest_on_tick tick_size v = half_even (v.mantissa * 10000) (10 ^ v.places * tick_size) * tick_size

abbrev pub distance : ℕ → ℕ → ℕ
distance a b = if leb a b then b - a else a - b

-- `abs(rounded - value) > max(0.000001, abs(value) * 0.0000002)`, each side times 10^(places + 7).
unfoldable pub off_tick : ℕ → Decimal → Bool
off_tick rounded v =
    ltb (max (10 * 10 ^ v.places) (2 * v.mantissa))
      (1000 * distance (rounded * 10 ^ v.places) (v.mantissa * 10000))

-- `price(raw)` for a value above zero
unfoldable pub tick_price : ℕ → Decimal → Result ℕ
unfolding nearest_on_tick off_tick
tick_price tick_size v = do
  raise_if (tick_size == 0) "division by zero"
  let rounded = nearest_on_tick tick_size v
  raise_if (off_tick rounded v) "Dhan depth price is not tick aligned"
  ok rounded

abbrev pub is_zero : Decimal → Bool
is_zero v = v.mantissa == 0

-- `price(raw)`
unfoldable pub price : ℕ → Reading → Result ℕ
unfolding tick_price
price tick_size not_a_number = err "non-finite or negative Dhan depth price"
price tick_size infinite = err "non-finite or negative Dhan depth price"
price tick_size negative_value = err "non-finite or negative Dhan depth price"
price tick_size (value v) = do
  raise_if (is_zero v) "non-finite or negative Dhan depth price"
  tick_price tick_size v
