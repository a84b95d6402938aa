-- ===== src/Feeds/Depth.antt =====
-- What a decoded packet gives: levels that an order can be priced from, and so a book.
use dhan_bot.Strategy.{security_number}
use dhan_bot.Prelude.{
  ℕ, zero, suc, ◌+◌, ◌%◌, ◌≤◌, ◌<◌, ◌≡◌, refl, Bool, true, false, List, [], ◌∷◌, ◌++◌, String, not,
  ltb, leb, ◌==◌, ◌&&◌, str_eq, Result, ok, err, raise_if, length, All, length-append, arith,
  Bool-cases, inl, inr, >>=-eq-ok, mod-mul, subst, eq_refl, ap, sym, ==_iff,
}
use dhan_bot.Domain.{Instrument, Level, Segment, check_level, check_book, nse_fno, nse_index}
use dhan_bot.Feeds.Quotes.{
  Decimal, Reading, not_a_number, infinite, negative_value, value, DhanPacket, QuotedBook,
  tick_price, price, nearest_on_tick,
}
use dhan_bot.Feeds.Decode.{
  is_positive, word32, float_at, same_segment, same_number, is_header, is_unusable, depth_level,
  depth, statistics, decode_full_binary, book_from_packet,
}

-- A level that an order can be priced from: a quantity, at a price above zero and on a tick.
pub record IsPriced (tick_size : ℕ) (l : Level) : Type 0 where
  pub has_price : 0 < l.price
  pub has_quantity : 0 < l.quantity
  pub on_tick : l.price % tick_size ≡ 0

tick_price-on_tick : (t : ℕ) (v : Decimal) {p : ℕ} → tick_price t v ≡ ok p → p % t ≡ 0
unfolding tick_price
tick_price-on_tick t v {p} e =
    let same : nearest_on_tick t v ≡ p = ground arith in
    subst (λ n. n % t ≡ 0) same (unfold nearest_on_tick in mod-mul _ t)

price-on_tick : (t : ℕ) (r : Reading) {p : ℕ} → price t r ≡ ok p → p % t ≡ 0
unfolding price
price-on_tick t not_a_number e = cc
price-on_tick t infinite e = cc
price-on_tick t negative_value e = cc
price-on_tick t (value v) e =
    let done : tick_price t v ≡ ok _ = ground arith in tick_price-on_tick t v done

check_level_lem : (l : Level) {out : Level} → check_level l ≡ ok out → (l ≡ out) × (0 < l.price)
unfolding check_level
check_level_lem l e = (ground arith, ground arith)

ok-injective {ℓ} : {A : Type ℓ} {x y : A} → ok x ≡ ok y → x ≡ y
ok-injective e = cc

depth_level-IsPriced :
    (t q : ℕ) (r : Reading) {ls : List Level}
    → depth_level t q r ≡ ok ls
    → All (IsPriced t) ls × (length ls ≤ 1)
unfolding depth_level
depth_level-IsPriced t q r {ls} e = elim (Bool-cases (not (q == 0) && is_positive r)) [
  | inl quoted ↦
      (let (p, priced, later) = >>=-eq-ok (price t r) _ (rw quoted at e) in
        let (l, checked, made) =
          >>=-eq-ok (check_level (record { price = p; quantity = q })) _ later in
        let same = check_level_lem (record { price = p; quantity = q }) checked in
        let level : record { price = p; quantity = q } ∷ [] ≡ ls = cc in
        subst (λ xs. All (IsPriced t) xs × (length xs ≤ 1)) level
          (
            (
              record {
                has_price = same.1;
                has_quantity = ground arith;
                on_tick = price-on_tick t r priced;
              },
              tt,
            ),
            omega arith,
          ))
  | inr absent ↦
      subst (λ xs. All (IsPriced t) xs × (length xs ≤ 1))
        (ok-injective {x = []} {y = ls} (rw absent at e)) (tt, omega arith)
]

All-append :
    (t : ℕ) (xs ys : List Level)
    → All (IsPriced t) xs
    → All (IsPriced t) ys
    → All (IsPriced t) (xs ++ ys)
All-append t [] ys h k = k
All-append t (x ∷ xs) ys h k = (h.0, All-append t xs ys h.1 k)

abbrev IsTwoSided : ℕ → DhanPacket → Type 0
IsTwoSided t p =
    All (IsPriced t) p.bids × All (IsPriced t) p.asks × (length p.bids ≤ 5) × (length p.asks ≤ 5)

abbrev quoted_book : DhanPacket → Instrument → String → ℕ → QuotedBook
quoted_book p expected epoch received_ns = record {
  book = record {
    instrument = expected;
    bids = p.bids;
    asks = p.asks;
    epoch = epoch;
    received_ns = received_ns;
  };
  provider_ts_ms = p.provider_ts_ms;
  statistics = p.statistics;
}

raise_unless-ok : (b : Bool) (m : String) {u : Unit {0}} → raise_if (not b) m ≡ ok u → b ≡ true
raise_unless-ok true m e = refl
raise_unless-ok false m e = cc

same_number-ok : (r : Result ℕ) (n : ℕ) → same_number r n ≡ true → r ≡ ok n
same_number-ok (ok m) n h = ground arith
same_number-ok (err m) n h = cc

same_segment_refl : (s : Segment) → same_segment s s ≡ true
same_segment_refl nse_fno = refl
same_segment_refl nse_index = refl

book_from_packet-quoted :
    (p : DhanPacket) (expected : Instrument) (epoch : String) (received_ns : ℕ)
    → p.security_id ≡ expected.security_id
    → p.segment ≡ expected.segment
    → length p.bids ≤ 5
    → length p.asks ≤ 5
    → str_eq epoch "" ≡ false
    → 0 < received_ns
    → book_from_packet p expected epoch received_ns ≡ ok (quoted_book p expected epoch received_ns)
unfolding book_from_packet check_book
book_from_packet-quoted p expected epoch received_ns id seg few_bids few_asks named received =
    let bids_fit : ltb 5 (length p.bids) ≡ false = ground arith in
    let asks_fit : ltb 5 (length p.asks) ≡ false = ground arith in
    let later : leb received_ns 0 ≡ false = ground arith in
    rw (
      id,
      seg,
      eq_refl expected.security_id,
      same_segment_refl expected.segment,
      bids_fit,
      asks_fit,
      named,
      later,
    )

-- The book that a message of 162 bytes which names the contract's number gives.
pub record IsBook (payload : List ℕ) (expected : Instrument) (q : QuotedBook) : Type 0 where
  pub full : length payload ≡ 162
  pub addressed : security_number expected.security_id ≡ ok (word32 4 payload)
  pub instrument : q.book.instrument ≡ expected
  pub bids : All (IsPriced expected.tick_size) q.book.bids
  pub asks : All (IsPriced expected.tick_size) q.book.asks
  pub few_bids : length q.book.bids ≤ 5
  pub few_asks : length q.book.asks ≤ 5

module _ (read_float : List ℕ → Reading) where
  depth-IsPriced :
      (rows t offset : ℕ) (payload : List ℕ) {out : List Level × List Level}
      → depth read_float rows t offset payload ≡ ok out
      → All (IsPriced t) out.0
        × All (IsPriced t) out.1
        × (length out.0 ≤ rows)
        × (length out.1 ≤ rows)
  unfolding depth
  depth-IsPriced zero t offset payload e =
      subst
        (λ o.
          All (IsPriced t) o.0 × All (IsPriced t) o.1 × (length o.0 ≤ zero) × (length o.1 ≤ zero))
        (ok-injective e) (tt, tt, omega arith, omega arith)
  depth-IsPriced (suc rows) t offset payload {out} e =
      let (bid, bid_ok, e1) =
        >>=-eq-ok
          (depth_level t (word32 offset payload) (float_at read_float (offset + 12) payload)) _ e in
      let (ask, ask_ok, e2) =
        >>=-eq-ok
          (depth_level t (word32 (offset + 4) payload) (float_at read_float (offset + 16) payload))
          _ e1 in
      let (rest, rest_ok, e3) = >>=-eq-ok (depth read_float rows t (offset + 20) payload) _ e2 in
      let ih = depth-IsPriced rows t (offset + 20) payload rest_ok in
      let b =
        depth_level-IsPriced t (word32 offset payload) (float_at read_float (offset + 12) payload)
          bid_ok in
      let a =
        depth_level-IsPriced t (word32 (offset + 4) payload)
          (float_at read_float (offset + 16) payload) ask_ok in
      subst
        (λ o.
          All (IsPriced t) o.0
          × All (IsPriced t) o.1
          × (length o.0 ≤ suc rows)
          × (length o.1 ≤ suc rows))
        (ok-injective e3)
        (
          All-append t bid rest.0 b.0 ih.0,
          All-append t ask rest.1 a.0 ih.1,
          omega (arith, length-append bid rest.0, b.1, ih.2),
          omega (arith, length-append ask rest.1, a.1, ih.3),
        )

  header_number :
      (payload : List ℕ) (expected : Instrument)
      → is_header payload expected ≡ true
      → security_number expected.security_id ≡ ok (word32 4 payload)
  unfolding is_header
  header_number payload expected h =
      same_number-ok (security_number expected.security_id) (word32 4 payload) (ground arith)

  decode-IsDecoded :
      (payload : List ℕ) (expected : Instrument) {p : DhanPacket}
      → decode_full_binary read_float payload expected ≡ ok p
      → (p.security_id ≡ expected.security_id)
        × (p.segment ≡ expected.segment)
        × (length payload ≡ 162)
        × (security_number expected.security_id ≡ ok (word32 4 payload))
        × IsTwoSided expected.tick_size p
  unfolding decode_full_binary
  decode-IsDecoded payload expected {p} e =
      let (_, sized, e1) =
        >>=-eq-ok (raise_if (not (length payload == 162)) "short Dhan Full packet") _ e in
      let (_, headed, e2) =
        >>=-eq-ok (raise_if (not (is_header payload expected)) "invalid Dhan Full packet header") _
          e1 in
      let (_, _, e3) =
        >>=-eq-ok (raise_if (is_unusable (float_at read_float 8 payload)) "invalid Dhan Full LTP") _
          e2 in
      let (stats, _, e4) = >>=-eq-ok (statistics read_float expected.tick_size payload) _ e3 in
      let (levels, levels_ok, e5) =
        >>=-eq-ok (depth read_float 5 expected.tick_size 62 payload) _ e4 in
      let same = ok-injective e5 in
      let long = raise_unless-ok (length payload == 162) _ sized in
      let named = raise_unless-ok (is_header payload expected) _ headed in
      let priced = depth-IsPriced 5 expected.tick_size 62 payload levels_ok in
      (
        ap DhanPacket.security_id (sym same),
        ap DhanPacket.segment (sym same),
        (==_iff _ _).0 long,
        header_number payload expected named,
        subst (IsTwoSided expected.tick_size) same priced,
      )

  -- A message that is decoded gives a book as soon as the connection has a name and the time of
  -- the reception is known: the book of the expected contract, with at most five levels a side,
  -- each of them a quantity at a price above zero on a tick of the contract. Such a message is 162
  -- bytes long and names the contract's number.
  pub decode-IsBook :
      (payload : List ℕ) (expected : Instrument) (epoch : String) (received_ns : ℕ) {p : DhanPacket}
      → decode_full_binary read_float payload expected ≡ ok p
      → str_eq epoch "" ≡ false
      → 0 < received_ns
      → (q : QuotedBook) × (book_from_packet p expected epoch received_ns ≡ ok q)
        × IsBook payload expected q
  decode-IsBook payload expected epoch received_ns {p} e named received =
      let f = decode-IsDecoded payload expected e in
      let made = quoted_book p expected epoch received_ns in
      (
        made,
        book_from_packet-quoted p expected epoch received_ns f.0 f.1 f.4.2 f.4.3 named received,
        record {
          full = f.2;
          addressed = f.3;
          instrument = refl;
          bids = f.4.0;
          asks = f.4.1;
          few_bids = f.4.2;
          few_asks = f.4.3;
        },
      )
