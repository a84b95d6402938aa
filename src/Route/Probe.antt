-- ===== src/Route/Probe.antt =====
-- `probe_candidates` of dhan_cas_bot/route.py: the books of contracts that a probe may use, the most
-- liquid first. Ratios of prices are compared exactly, without the 28 digits of a Decimal. The
-- time in nanoseconds and the day are arguments.
use dhan_bot.Prelude.{
  ℕ, ◌-◌, ◌*◌, max, String, Bool, false, not, ◌&&◌, ◌||◌, Option, none, some, List, [], ◌∷◌, map,
  ltb, leb, ◌==◌, str_eq, if◌then◌else◌, any, sort_by, ℤ, pos, ltb_ℤ, Result, ok, ◌>>=◌, ◌++◌,
}
use dhan_bot.Domain.{Instrument, Level, OptionBook, top_bid, top_ask}
use dhan_bot.Risk.{default_fees, worst_case_entry_cash, reserve_cash}
use dhan_bot.Strategy.{security_number}
use dhan_bot.Feeds.Quotes.{QuotedBook, MarketStatistics}

abbrev pub or_nought : Option ℕ → ℕ
or_nought none = 0
or_nought (some v) = v

abbrev pub exceeds : ℕ → Option ℕ → Bool
exceeds v none = false
exceeds v (some limit) = ltb limit v

-- The two best levels with the statistics, where the book has all three.
pub record Quote : Type 0 where
  pub bid : Level
  pub ask : Level
  pub statistics : MarketStatistics

abbrev pub quote_of : Option Level → Option Level → Option MarketStatistics → Option Quote
quote_of (some bid) (some ask) (some stats) =
    some (record { bid = bid; ask = ask; statistics = stats })
quote_of _ _ _ = none

unfoldable pub quote : QuotedBook → Option Quote
unfolding top_bid top_ask
quote b = quote_of (top_bid b.book) (top_ask b.book) b.statistics

-- The time of a book is at most two seconds old, and not in the future.
abbrev pub is_current : ℕ → OptionBook → Bool
is_current stamp b = leb b.received_ns stamp && leb (stamp - b.received_ns) 2000000000

-- A lot on each side, a spread of at most two per cent, and a hundred lots of interest and volume.
unfoldable pub is_liquid : Instrument → Quote → Bool
is_liquid i q =
    leb i.lot_size q.bid.quantity
    && (leb i.lot_size q.ask.quantity
        && (leb q.bid.price q.ask.price
            && (leb ((q.ask.price - q.bid.price) * 50) q.bid.price
                && (leb (100 * i.lot_size) q.statistics.open_interest
                    && leb (100 * i.lot_size) q.statistics.volume))))

abbrev pub over_budget : Option ℤ → ℕ → Bool
over_budget none cost = false
over_budget (some remaining) cost = ltb_ℤ remaining (pos cost)

abbrev pub lowest_price : Instrument → ℕ
lowest_price i = max i.tick_size (or_nought i.lower_limit)

-- The price below the bid and in the band, at which a lot is affordable.
unfoldable pub is_cheap : Option ℤ → Instrument → Quote → Result Bool
is_cheap remaining i q =
    if leb q.bid.price (lowest_price i) || exceeds (lowest_price i) i.upper_limit
    then ok false
    else do
      cash ← worst_case_entry_cash i.lot_size (lowest_price i) 1 default_fees
      ok (not (over_budget remaining (reserve_cash cash)))

module _ (stamp day : ℕ) (epoch : String) (rejected : List String) (remaining : Option ℤ) where
  abbrev pub is_usable : OptionBook → Bool
  is_usable b =
      not (any (str_eq b.instrument.security_id) rejected)
      && (str_eq b.epoch epoch && (is_current stamp b && leb day b.instrument.expiry))

  -- The loop's tests of one book, and what it appends.
  abbrev pub candidate : QuotedBook → Option Quote → Result (List (Quote × QuotedBook))
  candidate b none = ok []
  candidate b (some q) =
      if is_usable b.book && is_liquid b.book.instrument q
      then (is_cheap remaining b.book.instrument q >>= λ cheap.
          ok (if cheap then (q, b) ∷ [] else []))
      else ok []

  unfoldable pub candidates : List QuotedBook → Result (List (Quote × QuotedBook))
  unfolding quote is_liquid is_cheap
  candidates [] = ok []
  candidates (b ∷ bs) = do first ← candidate b (quote b); rest ← candidates bs; ok (first ++ rest)

-- The key of the sort: most interest, most volume, least spread, first expiry, least number.
pub record Keyed : Type 0 where
  pub number : ℕ
  pub quote : Quote
  pub book : QuotedBook

abbrev pub then_by : Bool → Bool → Bool → Bool
then_by less same rest = less || (same && rest)

unfoldable pub ranks_before : Keyed → Keyed → Bool
ranks_before x y =
    let s = x.quote.statistics in
    let t = y.quote.statistics in
    let a = (x.quote.ask.price - x.quote.bid.price) * y.quote.bid.price in
    let b = (y.quote.ask.price - y.quote.bid.price) * x.quote.bid.price in
    let e = x.book.book.instrument.expiry in
    let f = y.book.book.instrument.expiry in
    then_by (ltb t.open_interest s.open_interest) (t.open_interest == s.open_interest) (
      then_by (ltb t.volume s.volume) (t.volume == s.volume)
        (then_by (ltb a b) (a == b) (then_by (ltb e f) (e == f) (leb x.number y.number))))

unfoldable pub with_keys : List (Quote × QuotedBook) → Result (List Keyed)
with_keys [] = ok []
with_keys ((q, b) ∷ rest) = do
  number ← security_number b.book.instrument.security_id
  keyed ← with_keys rest
  ok (record { number = number; quote = q; book = b } ∷ keyed)

unfoldable pub probe_candidates :
    ℕ → ℕ → String → List String → Option ℤ → List QuotedBook → Result (List QuotedBook)
unfolding candidates with_keys ranks_before
probe_candidates stamp day epoch rejected remaining books = do
  found ← candidates stamp day epoch rejected remaining books
  keyed ← with_keys found
  ok (map (λ (k : Keyed). k.book) (sort_by ranks_before keyed))
