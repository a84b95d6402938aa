-- ===== src/Engine/Taken.antt =====
-- The depth that an entry of dhan_cas_bot/engine.py takes from its book.
use dhan_bot.Risk.{worst_case_entry_cash, default_fees}
use dhan_bot.Orders.Action.{Account}
use dhan_bot.Ledger.{LifecycleRow}
use dhan_bot.Orders.{Position, Reply}
use dhan_bot.Domain.{Level}
use dhan_bot.Engine.Choice.{used_depth, deplete, child_quantity, same_book}
use dhan_bot.Engine.State.{Codec, Session, BookId}
use dhan_bot.Prelude.{
  [], ◌∷◌, refl, String, List, Result, Bool, ℕ, Option, sum_of, ◌≡◌, ◌++◌, ◌-◌, ◌+◌, arith, err,
  false, ltb, ok, eq_iff, true, Bool-cases, ◌<◌, inl, ◌≤◌, min, inr, ap, ◌∙◌,
}
use dhan_bot.Engine.Entry.{Rules}
use dhan_bot.Engine.Purchase.{
  buy_choice, Choice, commit_choice, entered, lifecycle_id_of, purchase_of, send,
}

abbrev pub depth : List Level → ℕ
depth = sum_of (λ (l : Level). l.quantity)

deplete-depth : (used : ℕ) (ls : List Level) → depth (deplete used ls) ≡ depth ls - used
unfolding deplete
deplete-depth used [] = omega arith
deplete-depth used (l ∷ ls) = elim (Bool-cases (ltb (min used l.quantity) l.quantity)) [
  | inl left ↦
      let below = ltb-lt (min used l.quantity) l.quantity left in
      rw left (omega (arith, deplete-depth (used - min used l.quantity) ls, below))
  | inr gone ↦
      let above = ltb-ge (min used l.quantity) l.quantity gone in
      rw gone (omega (arith, deplete-depth (used - min used l.quantity) ls, above))
]
  where
    ltb-lt : (a b : ℕ) → ltb a b ≡ true → a < b
    ltb-lt a b h = ground arith

    ltb-ge : (a b : ℕ) → ltb a b ≡ false → b ≤ a
    ltb-ge a b h = ground arith

used_depth-snoc :
    (id : BookId) (rows : List (BookId × ℕ)) (n : ℕ)
    → used_depth id (rows ++ ((id, n) ∷ [])) ≡ used_depth id rows + n
unfolding used_depth
used_depth-snoc id [] n = ground (arith, eq_iff id.epoch id.epoch, eq_iff id.security id.security)
used_depth-snoc id ((j, m) ∷ rows) n = elim (Bool-cases (same_book j id)) [
  | inl same ↦ rw same (omega (arith, used_depth-snoc id rows n))
  | inr other ↦ rw other (used_depth-snoc id rows n)
]

entered-debits :
    (reason : String) (q : Result String × Account) (e : Session)
    → (entered reason q e).1.depth_debits ≡ e.depth_debits
entered-debits reason (err m, s) e = refl
entered-debits reason (ok id, s) e = refl

-- However a purchase ends, whether its order is sent, refused or left without an answer, the depth that
-- later entries see in its book is less by the quantity of the order, down to nothing.
pub buy_choice-takes :
    (c : Codec) (r : Rules) (row : Option LifecycleRow)
    (fresh intent_id client_id attempt_id : String) (now : ℕ) (choice : Choice) (decision : String)
    (ready : Bool) (positions : Result (List Position)) (reply : Reply) (e : Session)
    (asks : List Level)
    → let e' =
        (buy_choice c r row fresh intent_id client_id attempt_id now choice decision ready positions
          reply e).1 in
      let id = choice.1 in
      depth (deplete (used_depth id e'.depth_debits) asks)
      ≡ depth (deplete (used_depth id e.depth_debits) asks) - child_quantity choice.0
unfolding buy_choice commit_choice
buy_choice-takes c r row fresh intent_id client_id attempt_id now (o, id, a) decision ready
      positions reply e asks =
    let q = child_quantity o in
    let lifecycle_id = lifecycle_id_of row fresh in
    let committed = commit_choice c row lifecycle_id intent_id (o, id, a) decision e in
    let x = purchase_of intent_id client_id now lifecycle_id o in
    let sent_order =
      send now r x (worst_case_entry_cash x.quantity x.limit_price 1 default_fees) ready attempt_id
        positions reply committed in
    let after = used_depth id (entered o.reason sent_order committed).1.depth_debits in
    let more : after ≡ used_depth id e.depth_debits + q =
      ap (λ rows. used_depth id rows) (entered-debits o.reason sent_order committed)
      ∙ used_depth-snoc id e.depth_debits q in
    omega (arith, deplete-depth after asks, deplete-depth (used_depth id e.depth_debits) asks, more)
