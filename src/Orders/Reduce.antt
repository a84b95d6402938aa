-- ===== src/Orders/Reduce.antt =====
-- `ExitManager.reduce` of dhan_cas_bot/exit_manager.py. Identities that the code draws from `uuid4`
-- and the clock are arguments.
use dhan_bot.Prelude.{ℕ, ◌%◌, min, String, Bool, leb, ◌==◌, not, ◌||◌, true, Result, List}
use dhan_bot.Domain.{sell, Instrument, Intent, OptionBook, paisa}
use dhan_bot.Exits.{sell_limit}
use dhan_bot.Orders.Action.{Action, lift, refuse_if, ◌>>=◌, ◌>>◌}
use dhan_bot.Orders.Rate.{child_size}
use dhan_bot.Orders.Submit.{Position, Reply, submit}

abbrev pub exit_intent : String → String → ℕ → String → Instrument → ℕ → ℕ → Intent
exit_intent intent_id client_id created lifecycle_id i quantity limit = record {
  intent_id = intent_id;
  side = sell;
  instrument = i;
  quantity = quantity;
  limit_price = limit;
  client_order_id = client_id;
  created_at = created;
  lifecycle_id = lifecycle_id;
}

-- A reduction is one sale of at most a freeze quantity of whole lots; its reservation is a paisa.
unfoldable pub reduce :
    ℕ
    → String
    → String
    → String
    → String
    → Instrument
    → ℕ
    → OptionBook
    → String
    → Bool
    → Result (List Position)
    → Reply
    → Action String
reduce now account intent_id client_id attempt_id i quantity book lifecycle_id emergency positions
      reply =
    do
      refuse_if (leb quantity 0 || not (quantity % i.lot_size == 0))
          "exit quantity must be whole lots"
      limit ← lift (sell_limit book emergency)
      let x = exit_intent intent_id client_id now lifecycle_id i (min quantity (child_size i)) limit
      submit now account x paisa true attempt_id positions reply
