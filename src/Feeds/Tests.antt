-- ===== src/Feeds/Tests.antt =====
-- Tests of the feed of the broker, and instances of its theorems.
use dhan_bot.Prelude.{
  sort_by, ℕ, zero, suc, ◌≡◌, refl, true, some, none, List, [], ◌∷◌, ◌++◌, ok, arith, false,
}
use dhan_bot.Domain.{nse_fno, check_level}
use dhan_bot.Feeds.Frames.{packets, done, disconnected, little_endian}
use dhan_bot.Feeds.Split.{concat, packets-concat}
use dhan_bot.Feeds.Covers.{Covers, packets-Covers}
use dhan_bot.Feeds.Quotes.{price, Reading, value, DhanPacket, QuotedBook}
use dhan_bot.Feeds.Decode.{decode_full_binary, book_from_packet}
use dhan_bot.Feeds.Depth.{IsBook, decode-IsBook}
use dhan_bot.Feeds.Sets.{contains}
use dhan_bot.Feeds.Subscriptions.{new_subscriptions, sync, SyncResult, taken}
use dhan_bot.Feeds.Universe.{market_ids}
use dhan_bot.Feeds.Synced.{Follows, sync-Follows}
use dhan_bot.Strategy.{security_number}
use dhan_bot.Samples.{call_option}

abbrev first_frame : List ℕ
first_frame = 5 ∷ 8 ∷ 0 ∷ 2 ∷ 1 ∷ 0 ∷ 0 ∷ 0 ∷ []

abbrev second_frame : List ℕ
second_frame = 6 ∷ 9 ∷ 0 ∷ 2 ∷ 7 ∷ 0 ∷ 0 ∷ 0 ∷ 50 ∷ []

-- A notice of a disconnection with code 805 ends the packets.
packets_disconnected :
    packets (first_frame ++ (50 ∷ 10 ∷ 0 ∷ 0 ∷ 0 ∷ 0 ∷ 0 ∷ 0 ∷ 37 ∷ 3 ∷ []))
    ≡ (first_frame ∷ [], disconnected (some 805))
unfolding packets
packets_disconnected = refl

packets-concat_example :
    packets (concat (first_frame ∷ second_frame ∷ [])) ≡ (first_frame ∷ second_frame ∷ [], done)
packets-concat_example = packets-concat (first_frame ∷ second_frame ∷ []) (
  record { header = omega arith; sized = refl; live = refl },
  (record { header = omega arith; sized = refl; live = refl }, tt),
)

packets-Covers_example :
    Covers (first_frame ++ second_frame) (packets (first_frame ++ second_frame))
packets-Covers_example = packets-Covers (first_frame ++ second_frame)

sync-Follows_example :
    (r : SyncResult ℕ) × (sync true
        (λ n. taken)
        "dhan-market:p:1"
        ("2" ∷ "3" ∷ [])
        (("1", 7) ∷ ("2", 9) ∷ [])
        (new_subscriptions ("1" ∷ "2" ∷ []))
      ≡ ok r)
    × Follows ("2" ∷ "3" ∷ []) "dhan-market:p:1" (contains ("1" ∷ "2" ∷ [])) r
unfolding new_subscriptions sync
sync-Follows_example =
    sync-Follows true (λ n. taken) "dhan-market:p:1" ("2" ∷ "3" ∷ []) (("1", 7) ∷ ("2", 9) ∷ [])
      (new_subscriptions ("1" ∷ "2" ∷ [])) (contains ("1" ∷ "2" ∷ [])) (λ s. refl)

-- A packet of contract 45001 with one level of depth on each side. The bytes of a float are read as
-- a number of paise here.
abbrev paise_of : List ℕ → Reading
paise_of bytes = value (record { mantissa = little_endian bytes; places = 2 })

abbrev zeros : ℕ → List ℕ
zeros zero = []
zeros (suc n) = 0 ∷ zeros n

abbrev full_packet : List ℕ
full_packet =
    (8 ∷ 162 ∷ 0 ∷ 2 ∷ 201 ∷ 175 ∷ 0 ∷ 0 ∷ [])
    ++ (zeros 54
        ++ ((75 ∷ 0 ∷ 0 ∷ 0 ∷ 150 ∷ 0 ∷ 0 ∷ 0 ∷ 1 ∷ 0 ∷ 1 ∷ 0 ∷ [])
            ++ ((16 ∷ 39 ∷ 0 ∷ 0 ∷ 26 ∷ 39 ∷ 0 ∷ 0 ∷ []) ++ zeros 80)))

abbrev decoded_packet : DhanPacket
decoded_packet = record {
  packet_code = 8;
  declared_length = 162;
  segment = nse_fno;
  security_id = "45001";
  bids = record { price = 1000000; quantity = 75 } ∷ [];
  asks = record { price = 1001000; quantity = 150 } ∷ [];
  provider_ts_ms = some 0;
  statistics = some (record {
    last_price = record { mantissa = 0; places = 2 };
    last_quantity = 0;
    average_price = record { mantissa = 0; places = 2 };
    volume = 0;
    total_sell_quantity = 0;
    total_buy_quantity = 0;
    open_interest = 0;
    oi_day_high = 0;
    oi_day_low = 0;
    day_open = record { mantissa = 0; places = 2 };
    day_close = none;
    day_high = record { mantissa = 0; places = 2 };
    day_low = record { mantissa = 0; places = 2 };
  });
}

decode_full_packet : decode_full_binary paise_of full_packet call_option ≡ ok decoded_packet
unfolding decode_full_binary check_level security_number price
decode_full_packet = refl

decode-IsBook_example :
    (q : QuotedBook) × (book_from_packet decoded_packet call_option "dhan-market:p:1" 5 ≡ ok q)
    × IsBook full_packet call_option q
decode-IsBook_example =
    decode-IsBook paise_of full_packet call_option "dhan-market:p:1" 5 decode_full_packet refl
      (omega arith)

market_ids_one :
    market_ids (call_option ∷ []) 739000 (some 250000000 ∷ []) ("7" ∷ []) none none false
    ≡ "7" ∷ "45001" ∷ []
unfolding market_ids sort_by
market_ids_one = refl
