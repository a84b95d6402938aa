-- ===== src/Intraday/Bars.antt =====
-- `Bar`, `integral_number` and `parse_bars` of dhan_cas_bot/session_strategies.py: the minute candles of
-- an answer, by the time from which they are available. A column is a list; a number is what the
-- source tells apart in it, and a price that `dec` refuses is absent.
use dhan_bot.Prelude.{
  ℕ, ◌+◌, ◌*◌, ◌%◌, min, max, Bool, true, false, not, ◌&&◌, ◌||◌, Option, none, some, List, [], ◌∷◌,
  length, ltb, leb, ◌==◌, if◌then◌else◌, any, map, sort_by, ℤ, pos, negsuc, Result, ok, err,
  raise_if, ◌>>=◌, ◌>>◌,
}
use dhan_bot.Intraday.Calendars.{minute, zone}

pub record Bar : Type 0 where
  pub available : ℕ
  pub opening : ℕ
  pub close : ℕ
  pub volume : ℕ
  pub oi : ℕ
  pub high : ℕ
  pub low : ℕ

-- A whole number, or any other value (of another type, not finite, with a fraction).
pub data Number : Type 0 where
  whole : ℤ → Number
  other : Number

unfoldable pub integral_number : Number → Result ℕ
integral_number other = err "invalid integral candle value"
integral_number (whole (negsuc n)) = err "integral candle value out of range"
integral_number (whole (pos n)) = do
  raise_if (ltb 9007199254740992 n) "integral candle value out of range"
  ok n

-- `dec`
abbrev pub dec : Option ℕ → Result ℕ
dec none = err "invalid decimal"
dec (some v) = ok v

-- The columns of the answer; `open_interest` may be missing.
pub record Columns : Type 0 where
  pub timestamp : List Number
  pub opening : List (Option ℕ)
  pub high : List (Option ℕ)
  pub low : List (Option ℕ)
  pub close : List (Option ℕ)
  pub volume : List Number
  pub open_interest : Option (List Number)

pub record Row : Type 0 where
  pub stamp : Number
  pub op : Option ℕ
  pub hi : Option ℕ
  pub lo : Option ℕ
  pub close : Option ℕ
  pub volume : Number
  pub interest : Number

-- The rows of columns of one length.
unfoldable pub rows_of :
    List Number
    → List (Option ℕ)
    → List (Option ℕ)
    → List (Option ℕ)
    → List (Option ℕ)
    → List Number
    → List Number
    → List Row
rows_of (t ∷ ts) (o ∷ os) (h ∷ hs) (l ∷ ls) (c ∷ cs) (v ∷ vs) (i ∷ is) =
    record { stamp = t; op = o; hi = h; lo = l; close = c; volume = v; interest = i }
    ∷ rows_of ts os hs ls cs vs is
rows_of _ _ _ _ _ _ _ = []

abbrev pub available_at : ℕ → ℕ
available_at stamp = stamp * 1000000 + zone + minute

-- `min(prices) <= 0 or not lo <= min(op, close) <= max(op, close) <= hi`
abbrev pub is_candle : ℕ → ℕ → ℕ → ℕ → Bool
is_candle op hi lo close =
    ltb 0 (min (min op hi) (min lo close)) && (leb lo (min op close) && leb (max op close) hi)

unfoldable pub parse_row : List ℕ → Row → Result (ℕ × Bar)
unfolding integral_number
parse_row seen r = do
  stamp ← integral_number r.stamp
  raise_if (not (stamp % 60 == 0) || any (λ (t : ℕ). t == stamp) seen) "ambiguous minute timestamp"
  op ← dec r.op
  hi ← dec r.hi
  lo ← dec r.lo
  close ← dec r.close
  volume ← integral_number r.volume
  interest ← integral_number r.interest
  raise_if (not (is_candle op hi lo close)) "invalid minute OHLC"
  ok (
    stamp,
    record {
      available = available_at stamp;
      opening = op;
      close = close;
      volume = volume;
      oi = interest;
      high = hi;
      low = lo;
    },
  )

-- The loop: the candles that were available when the answer was received.
unfoldable pub parse_rows : ℕ → List ℕ → List Row → Result (List Bar)
unfolding parse_row
parse_rows received_at seen [] = ok []
parse_rows received_at seen (r ∷ rows) = do
  (stamp, bar) ← parse_row seen r
  rest ← parse_rows received_at (stamp ∷ seen) rows
  ok (if leb bar.available received_at then bar ∷ rest else rest)

abbrev pub zeros : List Number → List Number
zeros ts = map (λ t. whole (pos 0)) ts

abbrev pub or_zeros : Bool → List Number → Option (List Number) → Option (List Number)
or_zeros require_oi ts (some oi) = some oi
or_zeros true ts none = none
or_zeros false ts none = some (zeros ts)

abbrev pub interest_of : Bool → Columns → Option (List Number)
interest_of require_oi c = or_zeros require_oi c.timestamp c.open_interest

abbrev pub earlier : Bar → Bar → Bool
earlier a b = leb a.available b.available

abbrev pub same_size : Columns → Bool
same_size c =
    let size = length c.timestamp in
    length c.opening == size
    && (length c.high == size
        && (length c.low == size && (length c.close == size && length c.volume == size)))

abbrev pub parse_columns : ℕ → Columns → Option (List Number) → Result (List Bar)
parse_columns received_at c none = err "open interest history unavailable"
parse_columns received_at c (some oi) = do
  raise_if (not (length oi == length c.timestamp)) "open interest history unavailable"
  bars ← parse_rows received_at [] (rows_of c.timestamp c.opening c.high c.low c.close c.volume oi)
  ok (sort_by earlier bars)

-- An answer that is no dictionary with these columns is absent.
abbrev pub parse_payload : ℕ → Bool → Option Columns → Result (List Bar)
parse_payload received_at require_oi none = err "minute history unavailable"
parse_payload received_at require_oi (some c) = do
  raise_if (not (same_size c)) "misaligned minute history"
  parse_columns received_at c (interest_of require_oi c)

unfoldable pub parse_bars : Option Columns → ℕ → Bool → Result (List Bar)
unfolding parse_rows rows_of
parse_bars payload received_at require_oi = parse_payload received_at require_oi payload
