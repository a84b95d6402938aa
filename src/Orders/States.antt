-- ===== src/Orders/States.antt =====
-- The state of an intent in the table, and what the ledger statements of dhan_cas_bot/orders.py do to it.
-- The state of the intent of that identity.
use dhan_bot.Domain.{Intent, is_none}
use dhan_bot.Ledger.{
  reopen_recovery_closed, put_state, Db, IntentState, IntentRow, sent, reopen_rows, new_row,
}
use dhan_bot.Prelude.{
  String, List, ℕ, ◌≡◌, some, Option, none, false, ◌++◌, arith, ◌∷◌, if◌then◌else◌, [], str_eq,
  eq_iff, ◌⊎◌, inl,
}

unfoldable pub state_of : String → List IntentRow → Option IntentState
state_of id [] = none
state_of id (r ∷ rs) = if str_eq r.intent_id id then some r.state else state_of id rs

pub state_of-put_state :
    (id : String) (s : IntentState) (rs : List IntentRow)
    → is_none (state_of id rs) ≡ false
    → state_of id (put_state id s rs) ≡ some s
unfolding state_of put_state
state_of-put_state id s [] h = cc
state_of-put_state id s (r ∷ rs) h = ground (arith, state_of-put_state id s rs)

pub state_of-new_row :
    (x : Intent) (v : ℕ) (rs : List IntentRow)
    → is_none (state_of x.intent_id (rs ++ new_row x v ∷ [])) ≡ false
unfolding state_of
state_of-new_row x v [] = ground (arith, eq_iff x.intent_id x.intent_id)
state_of-new_row x v (r ∷ rs) = ground (arith, state_of-new_row x v rs)

pub state_of-reopen :
    (id j : String) (rs : List IntentRow)
    → state_of id rs ≡ some sent
    → state_of id (reopen_rows j rs) ≡ some sent
unfolding state_of
state_of-reopen id j [] h = cc
state_of-reopen id j (r ∷ rs) h = ground (arith, state_of-reopen id j rs)

pub state_of-reopened :
    (id j why : String) (db : Db)
    → state_of id db.intents ≡ some sent
    → state_of id (reopen_recovery_closed j why db).intents ≡ some sent
unfolding reopen_recovery_closed
state_of-reopened id j why db h = ground (arith, state_of-reopen id j db.intents h)

pub state_of-reopen_rows :
    (id j : String) (rs : List IntentRow)
    → (state_of id (reopen_rows j rs) ≡ state_of id rs)
      ⊎ (state_of id (reopen_rows j rs) ≡ some sent)
unfolding state_of
state_of-reopen_rows id j [] = inl (λ i. none)
state_of-reopen_rows id j (r ∷ rs) = ground (arith, state_of-reopen_rows id j rs)
