-- ===== src/Feeds/Epochs.antt =====
-- `FeedEpoch`, `SocketProtocol` and the clients of dhan_cas_bot/feeds.py: which messages of a
-- connection are taken. The set `seen` is a list, and the decimal text of a number is a parameter.
-- A client that holds a token is its protocol: the constructors refuse an empty token.
use dhan_bot.Prelude.{
  ℕ, ◌+◌, String, text_append, Bool, true, false, not, ◌&&◌, ◌||◌, Option, none, some, List, [],
  ◌∷◌, any, str_eq, if◌then◌else◌, Result, ok, raise_if, ◌>>◌, ◌==◌,
}

pub record FeedEpoch : Type 0 where
  pub name : String
  pub number : ℕ
  pub connected : Bool
  pub seen : List String
  pub process_id : String

-- `SocketProtocol(name)`: never connected so far.
unfoldable pub new_epoch : String → String → FeedEpoch
new_epoch name process_id = record {
  name = name;
  number = 0;
  connected = false;
  seen = [];
  process_id = process_id;
}

unfoldable pub reconnect : FeedEpoch → FeedEpoch
reconnect e = record e { number = e.number + 1; connected = true; seen = [] }

unfoldable pub disconnect : FeedEpoch → FeedEpoch
disconnect e = record e { connected = false; seen = [] }

unfoldable pub accept : String → FeedEpoch → FeedEpoch × Bool
accept identity e =
    if not e.connected || (str_eq identity "" || any (str_eq identity) e.seen)
    then (e, false)
    else (record e { seen = identity ∷ e.seen }, true)

-- `accept_order_event`
unfoldable pub accept_order_event : String → String → String → FeedEpoch → Result (FeedEpoch × Bool)
accept_order_event account_id expected_account identity e = do
  raise_if (not (str_eq account_id expected_account)) "foreign-account order event"
  ok (accept identity e)

pub record UpstoxFeedClient : Type 0 where
  pub protocol : FeedEpoch
  pub snapshot_epoch : Option String

abbrev pub is_snapshot_of : String → Option String → Bool
is_snapshot_of id none = false
is_snapshot_of id (some other) = str_eq other id

module _ (show_number : ℕ → String) where
  -- `f"{name}:{process_id}:{number}"`
  unfoldable pub epoch_id : FeedEpoch → String
  epoch_id e =
      text_append e.name
        (text_append ":" (text_append e.process_id (text_append ":" (show_number e.number))))

  unfoldable pub on_connect : FeedEpoch → FeedEpoch × String
  unfolding epoch_id reconnect
  on_connect e = (reconnect e, epoch_id (reconnect e))

  -- `accept_live_nifty` of a frame that does or does not hold the index, and its type. The first
  -- frame of a connection that holds the index is the snapshot.
  unfoldable pub accept_live_nifty : Bool → ℕ → UpstoxFeedClient → UpstoxFeedClient × Bool
  unfolding epoch_id
  accept_live_nifty holds_index frame_type c =
      let id = epoch_id c.protocol in
      if not holds_index
      then (c, false)
      else if is_snapshot_of id c.snapshot_epoch
      then (c, frame_type == 1 && c.protocol.connected)
      else (record c { snapshot_epoch = some id }, false)
