-- ===== src/Orders/Reconcile.antt =====
-- `OrderManager.reconcile` of dhan_cas_bot/orders.py. What the broker was asked (orders, trades, the
-- history, and the order of a correlation identity) is an argument.
use dhan_bot.Orders.Resolve.{reconcile_missing, trade_fill, settle_intent}
use dhan_bot.Domain.{check_fill}
use dhan_bot.Ledger.{IntentRow, BrokerOrder, pending_intents, record_order, record_fill_once}
use dhan_bot.Prelude.{
  ℕ, String, Bool, not, Option, none, some, List, [], ◌∷◌, ok, err, if◌then◌else◌, str_eq, ◌==◌,
  select, ◌++◌,
}
use dhan_bot.Orders.Trades.{Trade, foreign_trade, is_empty, foreign_order, confirm_historical_order}
use dhan_bot.Orders.Action.{
  ◌>>=◌, ◌>>◌, Action, refuse_if, pure, modify, account_changed, gets, lift, commit, update,
}

abbrev pub record_trade : ℕ → String → IntentRow → String → Trade → Action Bool
record_trade now account r order_id t = do
  refuse_if (foreign_trade account r t) "foreign or contradictory broker fill"
  x ← lift (check_fill (trade_fill now r order_id t))
  update (record_fill_once x r.intent_id)

-- The loop over the trades; those of other orders are passed over.
unfoldable pub record_trades : ℕ → String → IntentRow → String → List Trade → Action (Unit {0})
record_trades now account r order_id [] = pure tt
record_trades now account r order_id (t ∷ ts) =
    let rest = record_trades now account r order_id ts in
    if str_eq t.order_id order_id then (record_trade now account r order_id t >> rest) else rest

unfoldable pub reconcile_order :
    ℕ → String → IntentRow → BrokerOrder → List Trade → List Trade → Action (Unit {0})
reconcile_order now account r o trades history = do
  refuse_if (str_eq o.order_id "") "broker order has no identity"
  refuse_if (foreign_order account r o) "foreign or contradictory broker order"
  commit (record_order o.order_id r.intent_id account o.status o)
  let past = select (λ (t : Trade). str_eq t.order_id o.order_id) history
  confirmed ← update (confirm_historical_order now account r o past)
  record_trades now account r o.order_id (trades ++ (if confirmed then [] else past))
  commit (settle_intent r o)

abbrev pub reconcile_intent :
    ℕ → String → List Trade → List Trade → IntentRow → Option BrokerOrder → Action (Unit {0})
reconcile_intent now account trades history r none = modify (reconcile_missing r)
reconcile_intent now account trades history r (some o) =
    reconcile_order now account r o trades history

unfoldable pub reconcile_intents :
    ℕ → String → List Trade → List Trade → List (IntentRow × Option BrokerOrder) → Action (Unit {0})
reconcile_intents now account trades history [] = pure tt
reconcile_intents now account trades history ((r, o) ∷ rows) =
    reconcile_intent now account trades history r o
    >> reconcile_intents now account trades history rows

abbrev pub check_revision : ℕ → Action (Unit {0})
check_revision expected s =
    (if s.revision == expected then ok tt else err "order state changed while reading account", s)

-- The part under the writer lock: `resolved` pairs the intents read before with their orders. The
-- answer is whether an intent is still pending.
unfoldable pub reconcile :
    ℕ → String → ℕ → List (IntentRow × Option BrokerOrder) → List Trade → List Trade → Action Bool
reconcile now account expected resolved trades history = do
  check_revision expected
  account_changed
  reconcile_intents now account trades history resolved
  gets (λ db. ok (not (is_empty (pending_intents db))))
