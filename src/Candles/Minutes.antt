-- ===== src/Candles/Minutes.antt =====
-- `CompletedIndexMinutes` of dhan_cas_bot/stream_minutes.py. Times are microseconds since the epoch. What
-- cannot be read from a frame or a row, or is not finite, is none.
use dhan_bot.Prelude.{
  [], ◌∷◌, none, Option, ℕ, List, String, Bool, leb, false, true, some, any, ◌==◌, select,
  if◌then◌else◌, ltb, str_eq, ◌-◌, ◌+◌, ◌&&◌, ◌%◌, ◌*◌, min, max,
}

-- `Bar`, with the fields that are set here; the open interest is always 0.
pub record Bar : Type 0 where
  pub available : ℕ
  pub open_price : ℕ
  pub close_price : ℕ
  pub volume : ℕ
  pub high : ℕ
  pub low : ℕ

-- A row of the provider; `start` is its time, and a negative volume or price is none.
pub record Candle : Type 0 where
  pub interval : String
  pub start : Option ℕ
  pub bar : Option Bar

-- A frame: whether it is a live one with the index, and its time and rows, where they can be read.
pub record Frame : Type 0 where
  pub has_index : Bool
  pub content : Option (ℕ × List Candle)

pub record Minutes : Type 0 where
  pub rows : List (ℕ × Bar)
  pub conflicts : List ℕ
  pub epoch : Option String
  pub received : Option ℕ

abbrev pub reset : Minutes
reset = record { rows = []; conflicts = []; epoch = none; received = none }

abbrev pub second : ℕ
second = 1000000

-- `0 <= (later - earlier).total_seconds() <= n`
abbrev pub within_seconds : ℕ → ℕ → ℕ → Bool
within_seconds n later earlier = leb earlier later && leb later (earlier + n * second)

abbrev pub good_prices : Bar → Bool
good_prices b =
    ltb 0 b.open_price
    && ltb 0 b.close_price
    && ltb 0 b.high
    && ltb 0 b.low
    && leb b.low (min b.open_price b.close_price)
    && leb (max b.open_price b.close_price) b.high
    && leb b.low b.high

-- The bar of a row that is a completed minute, no more than 90 seconds old.
abbrev pub bar_at : ℕ → ℕ → Option ℕ → Option Bar → Option Bar
bar_at stamp received (some start) (some b) =
    let available = start + 60 * second in
    if start % (60 * second) == 0
      && leb available stamp
      && within_seconds 90 received available
      && good_prices b
    then some (record b { available = available })
    else none
bar_at stamp received _ _ = none

abbrev pub same_bar : Bar → Bar → Bool
same_bar a b =
    a.available == b.available
    && a.open_price == b.open_price
    && a.close_price == b.close_price
    && a.volume == b.volume
    && a.high == b.high
    && a.low == b.low

unfoldable pub bar_of : ℕ → List (ℕ × Bar) → Option Bar
bar_of t [] = none
bar_of t ((u, b) ∷ rows) = if u == t then some b else bar_of t rows

abbrev pub holds : ℕ → List ℕ → Bool
holds t ts = any (λ (u : ℕ). u == t) ts

unfoldable pub drop_bar : ℕ → List (ℕ × Bar) → List (ℕ × Bar)
drop_bar t [] = []
drop_bar t ((u, b) ∷ rows) = let rest = drop_bar t rows in if u == t then rest else (u, b) ∷ rest

-- A bar for a minute that has none, the same one, or another one: then both are dropped and the minute
-- is in conflict.
abbrev pub put_beside : Option Bar → Bar → ℕ → Bool × Minutes → Bool × Minutes
put_beside none b received (changed, m) =
    (true, record m { rows = (b.available, b) ∷ m.rows; received = some received })
put_beside (some old) b received (changed, m) =
    if same_bar old b then (changed, record m { received = some received }) else (
      changed,
      record m { rows = drop_bar b.available m.rows; conflicts = b.available ∷ m.conflicts },
    )

abbrev pub put_bar : Option Bar → ℕ → Bool × Minutes → Bool × Minutes
put_bar none received (changed, m) = (changed, m)
put_bar (some b) received (changed, m) =
    if holds b.available m.conflicts
    then (changed, m)
    else put_beside (bar_of b.available m.rows) b received (changed, m)

abbrev pub take_row : ℕ → ℕ → Candle → Bool × Minutes → Bool × Minutes
take_row stamp received c s =
    if str_eq c.interval "I1" then put_bar (bar_at stamp received c.start c.bar) received s else s

unfoldable pub take_rows : ℕ → ℕ → List Candle → Bool × Minutes → Bool × Minutes
take_rows stamp received [] s = s
take_rows stamp received (c ∷ cs) s = take_rows stamp received cs (take_row stamp received c s)

abbrev pub is_recent : ℕ → ℕ → Bool
is_recent received t = leb received (t + 120 * second)

abbrev pub prune : ℕ → Minutes → Minutes
prune received m = record m {
  rows = select (λ (p : ℕ × Bar). is_recent received p.0) m.rows;
  conflicts = select (λ (t : ℕ). is_recent received t) m.conflicts;
}

abbrev pub same_epoch : Option String → String → Bool
same_epoch none epoch = false
same_epoch (some e) epoch = str_eq e epoch

abbrev pub of_epoch : String → Minutes → Minutes
of_epoch epoch m = if same_epoch m.epoch epoch then m else record reset { epoch = some epoch }

abbrev pub take_content : Option (ℕ × List Candle) → String → ℕ → Minutes → Bool × Minutes
take_content none epoch received m = (false, m)
take_content (some (stamp, rows)) epoch received m =
    let (changed, m') = take_rows stamp received rows (false, of_epoch epoch m) in
    if within_seconds 5 received stamp then (changed, prune received m') else (false, m)

unfoldable pub accept : Frame → String → ℕ → Minutes → Bool × Minutes
accept f epoch received m =
    if f.has_index then take_content f.content epoch received m else (false, m)

abbrev pub current_at : Option ℕ → ℕ → Minutes → Option Bar
current_at none now m = none
current_at (some received) now m =
    if within_seconds 5 now received then bar_of (now - now % (60 * second)) m.rows else none

unfoldable pub current : ℕ → Minutes → Option Bar
current now m = current_at m.received now m
