-- ===== src/Feeds/Held.antt =====
-- What the broker holds after the messages of dhan_cas_bot/market_subscriptions.py, contract by
-- contract.
use dhan_bot.Prelude.{
  ℕ, zero, suc, ◌+◌, ◌≤◌, ◌<◌, ◌≡◌, refl, ap, ◌∙◌, arith, String, Bool, false, not, ◌&&◌, ◌||◌,
  List, [], ◌∷◌, ◌++◌, map, str_eq, eq_iff, select, length, take, drop, length-drop, Bool-cases,
  inl, inr, insert_by, sort_by, ◌==◌,
}
use dhan_bot.Feeds.Sets.{contains, sorted, unique, batches, text_leq}
use dhan_bot.Feeds.Covers.{take-drop}
use dhan_bot.Feeds.Subscriptions.{
  Message, subscribe, unsubscribe, Sent, taken, replaced, raised, Delivery, complete, on_sent,
  deliver,
}

-- What the broker holds after a message.
abbrev pub receive : Message → (String → Bool) → String → Bool
receive (subscribe ids) held s = held s || contains ids s
receive (unsubscribe ids) held s = held s && not (contains ids s)

abbrev pub receive_all : List Message → (String → Bool) → String → Bool
receive_all [] held = held
receive_all (m ∷ ms) held = receive_all ms (receive m held)

abbrev pub flat : List (List String) → List String
flat [] = []
flat (xs ∷ xss) = xs ++ flat xss

contains-append :
    (xs ys : List String) (s : String) → contains (xs ++ ys) s ≡ (contains xs s || contains ys s)
contains-append [] ys s = refl
contains-append (x ∷ xs) ys s = ground (arith, contains-append xs ys s)

pub contains-select :
    (p : String → Bool) (xs : List String) (s : String)
    → contains (select p xs) s ≡ (contains xs s && p s)
contains-select p [] s = refl
contains-select p (x ∷ xs) s = ground (arith, contains-select p xs s, eq_iff s x)

pub contains-unique : (xs : List String) (s : String) → contains (unique xs) s ≡ contains xs s
unfolding unique
contains-unique [] s = refl
contains-unique (x ∷ xs) s =
    ground (
      arith,
      contains-select (λ (y : String). not (str_eq y x)) (unique xs) s,
      contains-unique xs s,
    )

contains-insert_by :
    (x : String) (xs : List String) (s : String)
    → contains (insert_by text_leq x xs) s ≡ (str_eq s x || contains xs s)
unfolding insert_by
contains-insert_by x [] s = refl
contains-insert_by x (y ∷ ys) s = elim (Bool-cases (text_leq x y)) [
  | inl first ↦ rw first
  | inr later ↦ rw later (ground (arith, contains-insert_by x ys s))
]

contains-sort_by :
    (xs : List String) (s : String) → contains (sort_by text_leq xs) s ≡ contains xs s
unfolding sort_by
contains-sort_by [] s = refl
contains-sort_by (x ∷ xs) s =
    ground (arith, contains-insert_by x (sort_by text_leq xs) s, contains-sort_by xs s)

flat-batches :
    (fuel size : ℕ) (xs : List String)
    → 0 < size
    → length xs ≤ fuel
    → flat (batches fuel size xs) ≡ xs
unfolding batches
flat-batches zero size [] p h = refl
flat-batches zero size (x ∷ xs) p h = absurd (omega arith)
flat-batches (suc fuel) size [] p h = refl
flat-batches (suc fuel) size (x ∷ xs) p h =
    let more : (suc (length xs) == 0) ≡ false = ground arith in
    rw more (
      ap (λ t. take size (x ∷ xs) ++ t)
        (flat-batches fuel size (drop size (x ∷ xs)) p (omega (arith, length-drop size (x ∷ xs))))
      ∙ take-drop size (x ∷ xs))

-- The batches hold what the sorted set holds.
abbrev pub batched : List String → List (List String)
batched xs = batches (length (unique (sorted xs))) 100 (unique (sorted xs))

pub contains-batches :
    (xs : List String) (s : String) → contains (flat (batched xs)) s ≡ contains xs s
contains-batches xs s = rw (
  flat-batches (length (unique (sorted xs))) 100 (unique (sorted xs)) (omega arith) (omega arith),
  contains-unique (sorted xs) s,
  contains-sort_by (unique xs) s,
  contains-unique xs s,
)

pub receive_all-subscribe :
    (groups : List (List String)) (held : String → Bool) (s : String)
    → receive_all (map subscribe groups) held s ≡ (held s || contains (flat groups) s)
receive_all-subscribe [] held s = ground arith
receive_all-subscribe (g ∷ gs) held s =
    ground (
      arith,
      receive_all-subscribe gs (receive (subscribe g) held) s,
      contains-append g (flat gs) s,
    )

pub receive_all-unsubscribe :
    (groups : List (List String)) (held : String → Bool) (s : String)
    → receive_all (map unsubscribe groups) held s ≡ (held s && not (contains (flat groups) s))
receive_all-unsubscribe [] held s = ground arith
receive_all-unsubscribe (g ∷ gs) held s = ground (
  arith,
  receive_all-unsubscribe gs (receive (unsubscribe g) held) s,
  contains-append g (flat gs) s,
)

pub receive_all-append :
    (ms ns : List Message) (held : String → Bool)
    → receive_all (ms ++ ns) held ≡ receive_all ns (receive_all ms held)
receive_all-append [] ns held = refl
receive_all-append (m ∷ ms) ns held = receive_all-append ms ns (receive m held)

on_sent-complete :
    (m : Message) (ms : List Message) (o : Sent) (later : List Message × Delivery)
    → (later.1 ≡ complete → later.0 ≡ ms)
    → (on_sent m o later).1 ≡ complete
    → (on_sent m o later).0 ≡ m ∷ ms
on_sent-complete m ms taken later ih h = ap (λ t. m ∷ t) (ih h)
on_sent-complete m ms replaced later ih h = cc
on_sent-complete m ms (raised kind current) later ih h = cc

pub deliver-complete :
    (ms : List Message) (net : ℕ → Sent) (n : ℕ)
    → (deliver ms net n).1 ≡ complete
    → (deliver ms net n).0 ≡ ms
unfolding deliver
deliver-complete [] net n h = refl
deliver-complete (m ∷ ms) net n h =
    on_sent-complete m ms (net n) (deliver ms net (n + 1)) (deliver-complete ms net (n + 1)) h
