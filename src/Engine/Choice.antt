-- ===== src/Engine/Choice.antt =====
-- The choice of `_enter` in dhan_cas_bot/engine.py: the candidates of the books with the depth that
-- earlier orders have taken removed.
use dhan_bot.Engine.Signals.{streak_of}
use dhan_bot.Engine.Entry.{is_final_entry}
use dhan_bot.Risk.{Allocation, default_fees}
use dhan_bot.Ledger.{LifecycleRow, lookup}
use dhan_bot.Settlement.Final.{FinalValue}
use dhan_bot.Strategy.{
  Opportunity, Reference, better, Observed, child_of, security_number, find_final_opportunity,
  find_opportunity,
}
use dhan_bot.Engine.State.{Session, BookId}
use dhan_bot.Prelude.{
  [], none, ◌∷◌, ◌>>=◌, ℕ, Bool, List, String, Option, min, if◌then◌else◌, str_eq, some, Result,
  ◌&&◌, ok, ◌-◌, ◌+◌, false, ◌==◌, not, ltb, map, ◌||◌, length, err,
}
use dhan_bot.Domain.{OptionBook, Level}

abbrev pub book_id : String → OptionBook → BookId
book_id security b = record { epoch = b.epoch; security = security; received_ns = b.received_ns }

abbrev pub same_book : BookId → BookId → Bool
same_book x y =
    str_eq x.epoch y.epoch && str_eq x.security y.security && x.received_ns == y.received_ns

-- `SELECT COALESCE(SUM(quantity),0) FROM depth_debits WHERE identity=?`
unfoldable pub used_depth : BookId → List (BookId × ℕ) → ℕ
used_depth id [] = 0
used_depth id ((j, n) ∷ rows) =
    if same_book j id then n + used_depth id rows else used_depth id rows

-- The asks that are left once a quantity was taken from the best on.
unfoldable pub deplete : ℕ → List Level → List Level
deplete used [] = []
deplete used (l ∷ ls) =
    let rest = deplete (used - min used l.quantity) ls in
    if ltb (min used l.quantity) l.quantity
    then record { price = l.price; quantity = l.quantity - min used l.quantity } ∷ rest
    else rest

abbrev pub with_asks : OptionBook → List Level → OptionBook
with_asks b asks = record b { asks = asks }

-- The auction search needs a reference as soon as two observations are given to it.
abbrev pub search_lag :
    Option Reference → List Observed → OptionBook → Allocation → Result (Option Opportunity)
search_lag none history b a =
    if ltb (length history) 2 then ok none else err "'NoneType' object has no attribute 'value'"
search_lag (some r) history b a = find_opportunity r.value history (b ∷ []) a default_fees

abbrev pub search :
    Option FinalValue
    → Session
    → List Observed
    → OptionBook
    → Allocation
    → Result (Option Opportunity)
search (some f) e history b a = find_final_opportunity f (b ∷ []) a default_fees
search none e history b a = search_lag e.reference history b a

-- The final value, where the entry rests on it.
abbrev pub final_of : Session → Option FinalValue
final_of e = if is_final_entry e then e.final_value else none

abbrev pub is_other : Option LifecycleRow → String → Bool
is_other none security = false
is_other (some row) security = not (str_eq security row.security_id)

abbrev pub add_choice :
    Option Opportunity → BookId → List (Opportunity × BookId) → List (Opportunity × BookId)
add_choice none id rest = rest
add_choice (some o) id rest = (o, id) ∷ rest

-- One round of the loop, where a book of the security is there.
abbrev pub choice_of :
    Option OptionBook
    → String
    → Option LifecycleRow
    → ℕ
    → Allocation
    → Session
    → Result (Option Opportunity)
choice_of none security row day a e = ok none
choice_of (some b) security row day a e =
    let left = deplete (used_depth (book_id security b) e.depth_debits) b.asks in
    let found = search (final_of e) e (streak_of security e.streaks) (with_asks b left) a in
    if not (b.instrument.expiry == day) || is_other row security then ok none else found

abbrev pub id_of : Option OptionBook → String → BookId
id_of none security = record { epoch = ""; security = security; received_ns = 0 }
id_of (some b) security = book_id security b

unfoldable pub choices :
    List String
    → Option LifecycleRow
    → ℕ
    → Allocation
    → Session
    → Result (List (Opportunity × BookId))
choices [] row day a e = ok []
choices (k ∷ ks) row day a e = do
  found ← choice_of (lookup k e.books) k row day a e
  rest ← choices ks row day a e
  ok (add_choice found (id_of (lookup k e.books) k) rest)

-- `self.books if final_entry else self.streaks`
abbrev pub securities : Session → List String
securities e =
    if is_final_entry e
    then map (λ (p : String × OptionBook). p.0) e.books
    else map (λ (p : String × List Observed). p.0) e.streaks

-- The key of `max` is that of the searches.
unfoldable pub numbered_choices :
    List (Opportunity × BookId) → Result (List ((ℕ × Opportunity) × BookId))
numbered_choices [] = ok []
numbered_choices ((o, id) ∷ xs) = do
  n ← security_number o.instrument.security_id
  rest ← numbered_choices xs
  ok (((n, o), id) ∷ rest)

unfoldable pub best_choice :
    (ℕ × Opportunity) × BookId → List ((ℕ × Opportunity) × BookId) → (ℕ × Opportunity) × BookId
best_choice x [] = x
best_choice x (y ∷ ys) = best_choice (if better y.0 x.0 then y else x) ys

abbrev pub greatest_choice : List ((ℕ × Opportunity) × BookId) → Option (Opportunity × BookId)
greatest_choice [] = none
greatest_choice (x ∷ xs) = let best = best_choice x xs in some (best.0.1, best.1)

unfoldable pub choose_entry :
    Option LifecycleRow → ℕ → Allocation → Session → Result (Option (Opportunity × BookId))
choose_entry row day a e = do
  found ← choices (securities e) row day a e
  ranked ← numbered_choices found
  ok (greatest_choice ranked)

-- `min(candidate.quantity, freeze_qty // lot_size * lot_size)`
abbrev pub child_quantity : Opportunity → ℕ
child_quantity o = min o.quantity (child_of o.instrument)
