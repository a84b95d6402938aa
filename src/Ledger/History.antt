-- ===== src/Ledger/History.antt =====
-- A history of the ledger: the calls of its methods one after the other. A call that raises leaves
-- the database as it was, which is what `Ledger.transaction` of dhan_cas_bot/ledger.py does.
use dhan_bot.Prelude.{ℕ, String, Bool, List, [], ◌∷◌, ℤ, Result, ok, err, ◌>>=◌}
use dhan_bot.Domain.{Intent, Fill}
use dhan_bot.Ledger.Tables.{IntentState, AttemptState, OrderState, BrokerOrder, Db}
use dhan_bot.Ledger.Intents.{create_intent, record_attempt, set_intent_state, incident}
use dhan_bot.Ledger.Orders.{record_order, record_fill_once, record_order_charges}
use dhan_bot.Ledger.Keyed.{freeze_reference, set_counter, put_metadata, observe}

pub data Call : Type 0 where
  create : Intent → ℕ → Call
  attempt : ℕ → String → String → AttemptState → Call
  set_state : String → IntentState → Call
  order : String → String → String → OrderState → BrokerOrder → Call
  fill : Fill → String → Call
  charges : ℕ → String → String → ℕ → Bool → Call
  reference : String → String → Call
  count : String → ℤ → Call
  note : String → String → Call
  store : String → String → Call
  sample : String → String → Call

abbrev pub drop_flag : Bool × Db → Result Db
drop_flag (fresh, db) = ok db

unfoldable pub apply : Call → Db → Result Db
apply (create x reserved) db = create_intent x reserved db
apply (attempt now a i s) db = ok (record_attempt now a i s db)
apply (set_state i s) db = ok (set_intent_state i s db)
apply (order o i a s p) db = record_order o i a s p db
apply (fill x i) db = record_fill_once x i db >>= drop_flag
apply (charges now o i f c) db = record_order_charges now o i f c db
apply (reference s p) db = freeze_reference s p db
apply (count n v) db = ok (set_counter n v db)
apply (note i k) db = ok (incident i k db)
apply (store k v) db = ok (put_metadata k v db)
apply (sample i p) db = ok (observe i p db)

abbrev pub after : Result Db → Db → Db
after (ok db') db = db'
after (err e) db = db

unfoldable pub run : List Call → Db → Db
run [] db = db
run (c ∷ cs) db = run cs (after (apply c db) db)

-- A relation between databases that every call keeps is kept by a history.
pub run_induction {ℓ} :
    (P : Db → Type ℓ)
    → ((c : Call) (db : Db) → P db → P (after (apply c db) db))
    → (cs : List Call) (db : Db) → P db
    → P (run cs db)
unfolding run
run_induction P keep [] db h = h
run_induction P keep (c ∷ cs) db h = run_induction P keep cs (after (apply c db) db) (keep c db h)
