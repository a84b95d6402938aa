-- ===== src/Feeds/Decode.antt =====
-- `decode_full_binary` and `book_from_packet` of dhan_cas_bot/dhan_feed.py: a FULL packet of 162
-- bytes becomes the statistics of the market and up to five levels of bids and of asks.
use dhan_bot.Prelude.{
  ℕ, zero, suc, ◌+◌, ◌*◌, Bool, Option, none, some, List, [], ◌∷◌, String, not, ◌==◌, ◌&&◌, ◌||◌,
  str_eq, Result, ok, err, raise_if, ◌>>=◌, ◌>>◌, if◌then◌else◌, length, true, ◌++◌, false,
}
use dhan_bot.Domain.{Instrument, Level, Segment, check_level, check_book, nse_fno, nse_index}
use dhan_bot.Strategy.{security_number}
use dhan_bot.Feeds.Frames.{byte_at, slice, little_endian}
use dhan_bot.Feeds.Quotes.{
  Decimal, Reading, not_a_number, infinite, negative_value, value, MarketStatistics, DhanPacket,
  QuotedBook, tick_price, price, is_zero,
}

abbrev pub word16 : ℕ → List ℕ → ℕ
word16 offset payload = little_endian (slice offset (offset + 2) payload)

abbrev pub word32 : ℕ → List ℕ → ℕ
word32 offset payload = little_endian (slice offset (offset + 4) payload)

abbrev pub same_number : Result ℕ → ℕ → Bool
same_number (err message) n = false
same_number (ok m) n = m == n

-- The header names the packet, its length, the segment of options (2) and the contract.
unfoldable pub is_header : List ℕ → Instrument → Bool
is_header payload expected =
    byte_at 0 payload == 8
    && (word16 1 payload == length payload
        && (byte_at 3 payload == 2
            && same_number (security_number expected.security_id) (word32 4 payload)))

abbrev pub is_unusable : Reading → Bool
is_unusable not_a_number = true
is_unusable infinite = true
is_unusable negative_value = true
is_unusable (value v) = false

abbrev pub is_positive : Reading → Bool
is_positive not_a_number = false
is_positive infinite = true
is_positive negative_value = false
is_positive (value v) = not (is_zero v)

-- `statistic_price(offset)`: a traded price above zero lies on a tick.
unfoldable pub traded_price : ℕ → Reading → Result Decimal
traded_price tick_size not_a_number = err "invalid Dhan statistic price"
traded_price tick_size infinite = err "invalid Dhan statistic price"
traded_price tick_size negative_value = err "invalid Dhan statistic price"
traded_price tick_size (value v) =
    if is_zero v
    then ok v
    else tick_price tick_size v >>= λ p. ok (record { mantissa = p; places = 4 })

-- `statistic_price(offset, traded=False)`
unfoldable pub untraded_price : Reading → Result Decimal
untraded_price not_a_number = err "invalid Dhan statistic price"
untraded_price infinite = err "invalid Dhan statistic price"
untraded_price negative_value = err "invalid Dhan statistic price"
untraded_price (value v) = ok v

-- `x or None`
abbrev pub if_not_zero : Decimal → Option Decimal
if_not_zero v = if is_zero v then none else some v

-- One side of a row of depth: a level where there is a quantity at a price above zero.
unfoldable pub depth_level : ℕ → ℕ → Reading → Result (List Level)
depth_level tick_size quantity raw =
    if not (quantity == 0) && is_positive raw
    then (price tick_size raw >>= λ p.
        check_level (record { price = p; quantity = quantity }) >>= λ l. ok (l ∷ []))
    else ok []

-- What the decoding of the bytes of a float gives is a parameter.
module _ (read_float : List ℕ → Reading) where
  abbrev pub float_at : ℕ → List ℕ → Reading
  float_at offset payload = read_float (slice offset (offset + 4) payload)

  unfoldable pub statistics : ℕ → List ℕ → Result MarketStatistics
  unfolding traded_price untraded_price
  statistics tick_size payload = do
    last_price ← traded_price tick_size (float_at 8 payload)
    average_price ← untraded_price (float_at 18 payload)
    day_open ← traded_price tick_size (float_at 46 payload)
    day_close ← traded_price tick_size (float_at 50 payload)
    day_high ← traded_price tick_size (float_at 54 payload)
    day_low ← traded_price tick_size (float_at 58 payload)
    ok (record {
      last_price = last_price;
      last_quantity = word16 12 payload;
      average_price = average_price;
      volume = word32 22 payload;
      total_sell_quantity = word32 26 payload;
      total_buy_quantity = word32 30 payload;
      open_interest = word32 34 payload;
      oi_day_high = word32 38 payload;
      oi_day_low = word32 42 payload;
      day_open = day_open;
      day_close = if_not_zero day_close;
      day_high = day_high;
      day_low = day_low;
    })

  -- The rows of depth from an offset on, 20 bytes each: bids and asks.
  unfoldable pub depth : ℕ → ℕ → ℕ → List ℕ → Result (List Level × List Level)
  unfolding depth_level
  depth zero tick_size offset payload = ok ([], [])
  depth (suc rows) tick_size offset payload = do
    bid ← depth_level tick_size (word32 offset payload) (float_at (offset + 12) payload)
    ask ← depth_level tick_size (word32 (offset + 4) payload) (float_at (offset + 16) payload)
    rest ← depth rows tick_size (offset + 20) payload
    ok (bid ++ rest.0, ask ++ rest.1)

  unfoldable pub decode_full_binary : List ℕ → Instrument → Result DhanPacket
  unfolding is_header statistics depth
  decode_full_binary payload expected = do
    raise_if (not (length payload == 162)) "short Dhan Full packet"
    raise_if (not (is_header payload expected)) "invalid Dhan Full packet header"
    raise_if (is_unusable (float_at 8 payload)) "invalid Dhan Full LTP"
    stats ← statistics expected.tick_size payload
    levels ← depth 5 expected.tick_size 62 payload
    ok (record {
      packet_code = byte_at 0 payload;
      declared_length = word16 1 payload;
      segment = expected.segment;
      security_id = expected.security_id;
      bids = levels.0;
      asks = levels.1;
      provider_ts_ms = some (word32 14 payload * 1000);
      statistics = some stats;
    })

abbrev pub same_segment : Segment → Segment → Bool
same_segment nse_fno nse_fno = true
same_segment nse_index nse_index = true
same_segment _ _ = false

unfoldable pub book_from_packet : DhanPacket → Instrument → String → ℕ → Result QuotedBook
book_from_packet packet expected epoch received_ns = do
  raise_if
      (not (str_eq packet.security_id expected.security_id)
        || not (same_segment packet.segment expected.segment))
      "packet does not match subscription"
  b ← check_book (record {
    instrument = expected;
    bids = packet.bids;
    asks = packet.asks;
    epoch = epoch;
    received_ns = received_ns;
  })
  ok (record { book = b; provider_ts_ms = packet.provider_ts_ms; statistics = packet.statistics })
