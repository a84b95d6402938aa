-- ===== src/Feeds/Sets.antt =====
-- Sets of texts as lists, and the ordering and batching of them, as dhan_cas_bot/feeds.py and
-- market_subscriptions.py use them.

use dhan_bot.Prelude.{
  ℕ, zero, suc, String, Bool, true, false, not, ◌&&◌, ◌||◌, List, [], ◌∷◌, any, str_eq,
  if◌then◌else◌, ltb, ◌==◌, select, take, drop, length, leb, Result, ok, raise_if, ◌>>◌, sort_by,
}
use dhan_bot.Domain.{codes}

abbrev pub contains : List String → String → Bool
contains xs s = any (str_eq s) xs

-- `list(dict.fromkeys(values))`: each value once, where it stands first.
unfoldable pub unique : List String → List String
unique [] = []
unique (x ∷ xs) = x ∷ select (λ y. not (str_eq y x)) (unique xs)

-- `a - b`
abbrev pub difference : List String → List String → List String
difference a b = select (λ s. not (contains b s)) a

-- Texts are ordered by their code points.
unfoldable pub codes_leq : List ℕ → List ℕ → Bool
codes_leq [] bs = true
codes_leq (a ∷ as') [] = false
codes_leq (a ∷ as') (b ∷ bs) = ltb a b || (a == b && codes_leq as' bs)

abbrev pub text_leq : String → String → Bool
text_leq a b = codes_leq (codes a) (codes b)

-- `sorted(set(…))` of texts
abbrev pub sorted : List String → List String
sorted xs = sort_by text_leq (unique xs)

-- `[values[i:i + size] for i in range(0, len(values), size)]`, on the length of the values as fuel.
unfoldable pub batches : ℕ → ℕ → List String → List (List String)
batches zero size values = []
batches (suc fuel) size values =
    let later = batches fuel size (drop size values) in
    if length values == 0 then [] else take size values ∷ later

unfoldable pub chunked : List String → ℕ → Result (List (List String))
unfolding unique batches
chunked values size = do
  raise_if (leb size 0) "subscription batch size must be positive"
  ok (batches (length (unique values)) size (unique values))
