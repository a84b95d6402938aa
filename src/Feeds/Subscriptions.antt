-- ===== src/Feeds/Subscriptions.antt =====
-- `MarketSubscriptions` of dhan_cas_bot/market_subscriptions.py: the contracts that the feed of the
-- broker is subscribed to. What becomes of each message that is sent (it is taken, the socket was
-- replaced meanwhile, or sending raises) is an argument, and so is the socket of the runner.
use dhan_bot.Prelude.{
  ℕ, String, Bool, true, false, not, Option, none, some, List, [], ◌∷◌, ◌++◌, map, str_eq,
  if◌then◌else◌, select, Result, ok, ◌>>=◌, ◌+◌,
}
use dhan_bot.Feeds.Sets.{contains, difference, sorted, chunked, unique}

-- The two requests (codes 21 and 22), each with the contracts of its list.
pub data Message : Type 0 where
  subscribe : List String → Message
  unsubscribe : List String → Message

pub record MarketSubscriptions : Type 0 where
  pub bootstrap : List String
  pub wanted : List String
  pub applied : List String
  pub epoch : Option String
  pub last_error : String

unfoldable pub new_subscriptions : List String → MarketSubscriptions
unfolding unique
new_subscriptions bootstrap = record {
  bootstrap = unique bootstrap;
  wanted = unique bootstrap;
  applied = [];
  epoch = none;
  last_error = "";
}

-- `dhan_subscription`
unfoldable pub dhan_subscription : List String → Result (List Message)
unfolding chunked
dhan_subscription ids = chunked ids 100 >>= λ groups. ok (map subscribe groups)

unfoldable pub dhan_removal : List String → Result (List Message)
unfolding chunked
dhan_removal ids = chunked ids 100 >>= λ groups. ok (map unsubscribe groups)

-- An exception comes with whether the socket is still the runner's, which is then closed.
pub data Sent : Type 0 where
  taken : Sent
  replaced : Sent
  raised : String → Bool → Sent

-- How the sending of all messages ended, with the messages that went out.
pub data Delivery : Type 0 where
  complete : Delivery
  abandoned : Delivery
  broken : String → Bool → Delivery

abbrev pub also : Message → List Message × Delivery → List Message × Delivery
also m (ms, d) = (m ∷ ms, d)

-- One message, and what follows where it is taken.
abbrev pub on_sent : Message → Sent → List Message × Delivery → List Message × Delivery
on_sent m taken later = also m later
on_sent m replaced later = (m ∷ [], abandoned)
on_sent m (raised kind current) later = ([], broken kind current)

-- The loop over the messages; what happens to the n-th of them is `net n`.
unfoldable pub deliver : List Message → (ℕ → Sent) → ℕ → List Message × Delivery
deliver [] net n = ([], complete)
deliver (m ∷ ms) net n = on_sent m (net n) (deliver ms net (n + 1))

abbrev pub is_epoch : String → Option String → Bool
is_epoch epoch none = false
is_epoch epoch (some current) = str_eq epoch current

-- A new connection starts from the subscriptions of its start.
unfoldable pub at_epoch : String → MarketSubscriptions → MarketSubscriptions
at_epoch epoch m =
    if is_epoch epoch m.epoch then m else record m { epoch = some epoch; applied = m.bootstrap }

unfoldable pub messages_for : MarketSubscriptions → Result (List Message)
unfolding dhan_subscription dhan_removal
messages_for m = do
  additions ← dhan_subscription (sorted (difference m.wanted m.applied))
  removals ← dhan_removal (sorted (difference m.applied m.wanted))
  ok (additions ++ removals)

pub record SyncResult {ℓ} (V : Type ℓ) : Type ℓ where
  pub state : MarketSubscriptions
  pub books : List (String × V)
  pub sent : List Message
  pub closed : Bool
  pub synced : Bool

abbrev pub after : MarketSubscriptions → Delivery → MarketSubscriptions × Bool
after m complete = (record m { applied = m.wanted; last_error = "" }, true)
after m abandoned = (m, false)
after m (broken kind current) = (record m { last_error = kind }, false)

abbrev pub closes : Delivery → Bool
closes complete = false
closes abandoned = false
closes (broken kind current) = current

module _ {ℓ} {V : Type ℓ} where
  -- Quotes of contracts that are no longer wanted go at once.
  abbrev pub keep_wanted : List String → List (String × V) → List (String × V)
  keep_wanted wanted books = select (λ (row : String × V). contains wanted row.0) books

  unfoldable pub sync :
      Bool
      → (ℕ → Sent)
      → String
      → List String
      → List (String × V)
      → MarketSubscriptions
      → Result (SyncResult V)
  unfolding at_epoch messages_for deliver unique
  sync ready net epoch desired books m =
      let wanted = unique desired in
      let asked = record m { wanted = wanted } in
      let kept = keep_wanted wanted books in
      let current = at_epoch epoch asked in
      if not ready
      then ok (record { state = asked; books = kept; sent = []; closed = false; synced = false })
      else messages_for current >>= λ messages.
          let out = deliver messages net 0 in
          let end = after current out.1 in
          ok (record {
            state = end.0;
            books = kept;
            sent = out.0;
            closed = closes out.1;
            synced = end.1;
          })
