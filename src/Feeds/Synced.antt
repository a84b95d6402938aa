-- ===== src/Feeds/Synced.antt =====
-- The subscriptions that the broker holds after a synchronisation are the wanted ones.
use dhan_bot.Prelude.{
  ℕ, ◌≡◌, refl, sym, ap, ◌∙◌, arith, String, Bool, true, false, not, ◌&&◌, ◌||◌, Option, none, some,
  List, [], ◌∷◌, ◌++◌, map, eq_iff, if◌then◌else◌, All, ok, Bool-cases, inl, inr,
}
use dhan_bot.Feeds.Sets.{contains, difference, unique}
use dhan_bot.Feeds.Subscriptions.{
  Message, subscribe, unsubscribe, MarketSubscriptions, Sent, Delivery, complete, abandoned, broken,
  deliver, at_epoch, SyncResult, sync, is_epoch, after, keep_wanted, closes,
}
use dhan_bot.Feeds.Held.{
  receive_all, batched, contains-select, contains-unique, contains-batches, receive_all-subscribe,
  receive_all-unsubscribe, receive_all-append, deliver-complete,
}

-- What is held, with the wanted added and the others removed.
both : (a w : Bool) → ((a || w && not a) && not (a && not w)) ≡ w
both a w = ground arith

abbrev asked_for : MarketSubscriptions → List Message
asked_for m =
    map subscribe (batched (difference m.wanted m.applied))
    ++ map unsubscribe (batched (difference m.applied m.wanted))

receive_all-asked_for :
    (m : MarketSubscriptions) (held : String → Bool) (s : String)
    → held s ≡ contains m.applied s
    → receive_all (asked_for m) held s ≡ contains m.wanted s
receive_all-asked_for m held s h =
    let new = batched (difference m.wanted m.applied) in
    let old = batched (difference m.applied m.wanted) in
    rw
      (
        receive_all-append (map subscribe new) (map unsubscribe old) held,
        receive_all-unsubscribe old (receive_all (map subscribe new) held) s,
        receive_all-subscribe new held s,
        contains-batches (difference m.wanted m.applied) s,
        contains-batches (difference m.applied m.wanted) s,
        contains-select (λ t. not (contains m.applied t)) m.wanted s,
        contains-select (λ t. not (contains m.wanted t)) m.applied s,
        h,
      )
      (both (contains m.applied s) (contains m.wanted s))

after-true : (m : MarketSubscriptions) (d : Delivery) → (after m d).1 ≡ true → d ≡ complete
after-true m complete h = refl
after-true m abandoned h = cc
after-true m (broken kind current) h = cc

at_epoch-wanted : (epoch : String) (m : MarketSubscriptions) → (at_epoch epoch m).wanted ≡ m.wanted
unfolding at_epoch
at_epoch-wanted epoch m = ground arith

epoch_of :
    (epoch : String) (m : MarketSubscriptions) (o : Option String)
    → m.epoch ≡ o
    → (if is_epoch epoch o then m else record m { epoch = some epoch; applied = m.bootstrap }).epoch
      ≡ some epoch
epoch_of epoch m none e = refl
epoch_of epoch m (some current) e = ground (arith, eq_iff epoch current)

at_epoch-epoch : (epoch : String) (m : MarketSubscriptions) → (at_epoch epoch m).epoch ≡ some epoch
unfolding at_epoch
at_epoch-epoch epoch m = epoch_of epoch m m.epoch refl

at_epoch-applied :
    (epoch : String) (wanted : List String) (m : MarketSubscriptions)
    → (at_epoch epoch (record m { wanted = wanted })).applied ≡ (at_epoch epoch m).applied
unfolding at_epoch
at_epoch-applied epoch wanted m = ground arith

module _ {ℓ} {V : Type ℓ} where
  keep_wanted-All :
      (desired : List String) (books : List (String × V))
      → All (λ row. contains desired row.0 ≡ true) (keep_wanted (unique desired) books)
  keep_wanted-All desired [] = tt
  keep_wanted-All desired (row ∷ rows) = elim (Bool-cases (contains (unique desired) row.0)) [
    | inl e ↦ rw e (sym (contains-unique desired row.0) ∙ e, keep_wanted-All desired rows)
    | inr e ↦ rw e (keep_wanted-All desired rows)
  ]

  pub record Follows (desired : List String) (epoch : String) (held : String → Bool)
      (r : SyncResult V) : Type ℓ where
    pub quotes : All (λ row. contains desired row.0 ≡ true) r.books
    pub provider : r.synced ≡ true → (s : String) → receive_all r.sent held s ≡ contains desired s
    pub account : r.synced ≡ true → (s : String) → contains r.state.applied s ≡ contains desired s
    pub connection : r.synced ≡ true → r.state.epoch ≡ some epoch

  -- What a synchronisation leaves when its messages were sent.
  delivered : (ℕ → Sent) → MarketSubscriptions → List (String × V) → SyncResult V
  delivered net current kept =
      let out = deliver (asked_for current) net 0 in
      let end = after current out.1 in
      record { state = end.0; books = kept; sent = out.0; closed = closes out.1; synced = end.1 }

  delivered-sent :
      (net : ℕ → Sent) (current : MarketSubscriptions) (kept : List (String × V))
      → (delivered net current kept).synced ≡ true
      → ((delivered net current kept).sent ≡ asked_for current)
        × ((delivered net current kept).state
            ≡ record current { applied = current.wanted; last_error = "" })
  unfolding delivered
  delivered-sent net current kept h =
      let all = after-true current (deliver (asked_for current) net 0).1 h in
      (deliver-complete (asked_for current) net 0 all, ap (λ d. (after current d).0) all)

  -- A synchronisation never raises, and whatever becomes of its messages, the books that stay are
  -- those of wanted contracts. If it reports success, what the broker held before, as the state of
  -- the subscriptions has it for this connection, and the messages that went out make exactly the
  -- wanted contracts, and the state records them for this connection.
  pub sync-Follows :
      (ready : Bool) (net : ℕ → Sent) (epoch : String) (desired : List String)
      (books : List (String × V)) (m : MarketSubscriptions) (held : String → Bool)
      → ((s : String) → held s ≡ contains (at_epoch epoch m).applied s)
      → (r : SyncResult V) × (sync ready net epoch desired books m ≡ ok r)
        × Follows desired epoch held r
  unfolding sync
  sync-Follows false net epoch desired books m held h = (
    record {
      state = record m { wanted = unique desired };
      books = keep_wanted (unique desired) books;
      sent = [];
      closed = false;
      synced = false;
    },
    refl,
    record {
      quotes = keep_wanted-All desired books;
      provider = λ e. cc;
      account = λ e. cc;
      connection = λ e. cc;
    },
  )
  sync-Follows true net epoch desired books m held h =
      let asked : MarketSubscriptions = record m { wanted = unique desired } in
      let current = at_epoch epoch asked in
      let kept = keep_wanted (unique desired) books in
      let sent = delivered-sent net current kept in
      let wanted : current.wanted ≡ unique desired = at_epoch-wanted epoch asked in
      (
        delivered net current kept,
        unfold delivered in refl,
        record {
          quotes = unfold delivered in keep_wanted-All desired books;
          provider = λ e s. rw (sent e).0 (
              receive_all-asked_for current held s
                (h s ∙ ap (λ t. contains t s) (sym (at_epoch-applied epoch (unique desired) m)))
              ∙ (ap (λ t. contains t s) wanted ∙ contains-unique desired s));
          account =
              λ e s. rw (sent e).1 (ap (λ t. contains t s) wanted ∙ contains-unique desired s);
          connection = λ e. rw (sent e).1 (at_epoch-epoch epoch asked);
        },
      )
