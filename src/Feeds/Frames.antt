-- ===== src/Feeds/Frames.antt =====
-- `packets` of dhan_cas_bot/dhan_feed.py: the binary message of the broker's feed, a list of bytes,
-- split into its packets. A generator yields packets and then ends or raises, so the model returns
-- the packets that it yields beside the way it ends.
use dhan_bot.Prelude.{
  ℕ, zero, suc, ◌+◌, ◌-◌, ◌*◌, Bool, not, ◌&&◌, ◌||◌, Option, none, some, List, [], ◌∷◌, ltb, leb,
  ◌==◌, if◌then◌else◌, length, take, drop, any,
}

pub data Ending : Type 0 where
  done : Ending
  truncated_header : Ending
  invalid_length : Ending
  disconnected : Option ℕ → Ending
  out_of_fuel : Ending

-- `payload[i]`, where the length was tested before.
abbrev pub byte_at : ℕ → List ℕ → ℕ
byte_at i [] = 0
byte_at zero (b ∷ bs) = b
byte_at (suc i) (b ∷ bs) = byte_at i bs

-- `payload[start:stop]`
abbrev pub slice : ℕ → ℕ → List ℕ → List ℕ
slice start stop bytes = take (stop - start) (drop start bytes)

-- `int.from_bytes(bytes, 'little')`
abbrev pub little_endian : List ℕ → ℕ
little_endian [] = 0
little_endian (b ∷ bs) = b + 256 * little_endian bs

abbrev pub is_set : ℕ → Bool
is_set b = not (b == 0)

-- The length that the header of the packet at the front declares.
abbrev pub declared : List ℕ → ℕ
declared bytes = little_endian (slice 1 3 bytes)

-- The empty snapshot of the start, which is one packet although its header declares 70 bytes.
unfoldable pub is_startup : List ℕ → Bool
is_startup payload =
    length payload == 162
    && (byte_at 0 payload == 8
        && (declared payload == 70
            && (byte_at 3 payload == 2
                && (ltb 0 (little_endian (slice 4 8 payload))
                    && not (any is_set (drop 62 payload))))))

unfoldable pub disconnect_code : List ℕ → Option ℕ
disconnect_code packet =
    if leb 10 (length packet) then some (little_endian (slice 8 10 packet)) else none

abbrev pub yield_before : List ℕ → List (List ℕ) × Ending → List (List ℕ) × Ending
yield_before packet (rest, ending) = (packet ∷ rest, ending)

-- The loop at an offset into the payload, `rest` being `payload[offset:]`.
unfoldable pub split : ℕ → List ℕ → List (List ℕ) × Ending
unfolding disconnect_code
split zero rest = ([], out_of_fuel)
split (suc fuel) rest =
    let size = declared rest in
    let packet = take size rest in
    let later = yield_before packet (split fuel (drop size rest)) in
    if length rest == 0
    then ([], done)
    else if ltb (length rest) 8
    then ([], truncated_header)
    else if ltb size 8 || ltb (length rest) size
    then ([], invalid_length)
    else if byte_at 0 packet == 50
    then ([], disconnected (disconnect_code packet))
    else later

-- Every round takes at least eight bytes, so that the length of the payload is fuel enough.
unfoldable pub packets : List ℕ → List (List ℕ) × Ending
unfolding is_startup split
packets payload =
    if is_startup payload then (payload ∷ [], done) else split (suc (length payload)) payload
