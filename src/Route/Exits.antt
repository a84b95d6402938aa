-- ===== src/Route/Exits.antt =====
-- `managed_exit_route` of dhan_cas_bot/route.py: the fill of a managed sale that proves the route of
-- the present connection.
use dhan_bot.Prelude.{
  ℕ, String, Bool, true, false, not, ◌&&◌, ◌||◌, Option, none, some, List, [], ◌∷◌, take, ltb, leb,
  str_eq, if◌then◌else◌, select, any, all, find, sort_by,
}
use dhan_bot.Ledger.{
  Db, IntentRow, OrderRow, FillRow, LifecycleRow, IntentState, is_buy, units, lookup,
}
use dhan_bot.Route.Grants.{joined_rows, newest_first, is_probe, is_rejected}

-- `i.lifecycle_id=l.lifecycle_id` and `i.security_id=l.security_id`
abbrev pub is_managed_sale : Db → IntentRow × OrderRow → Bool
is_managed_sale db (i, o) =
    not (is_buy i.side)
    && (not (is_probe i)
        && any
            (λ (l : LifecycleRow).
              str_eq i.lifecycle_id l.lifecycle_id && str_eq i.security_id l.security_id)
            db.lifecycles)

abbrev pub is_concluded : IntentState → Bool
is_concluded IntentState.filled = true
is_concluded IntentState.cancelled = true
is_concluded IntentState.expired = true
is_concluded _ = false

abbrev pub is_echo : String → Bool
is_echo s =
    str_eq s "PART_TRADED" || (str_eq s "TRADED" || (str_eq s "CANCELLED" || str_eq s "EXPIRED"))

-- What the socket of this connection said of the order.
abbrev pub is_echoed : String → Option (String × String) → Bool
is_echoed epoch none = false
is_echoed epoch (some (e, status)) = str_eq e epoch && is_echo status

abbrev pub has_rows {ℓ} : {A : Type ℓ} → List A → Bool
has_rows [] = false
has_rows (x ∷ xs) = true

abbrev pub fills_of_order : IntentRow × OrderRow → Db → List FillRow
fills_of_order (i, o) db =
    select (λ (f : FillRow). str_eq f.order_id o.order_id && str_eq f.intent_id i.intent_id)
      db.fills

abbrev pub are_of_sale : IntentRow → List FillRow → Bool
are_of_sale i fills =
    has_rows fills
    && (all (λ (f : FillRow). str_eq f.security_id i.security_id && ltb 0 f.quantity) fills
        && (ltb 0 (units fills) && leb (units fills) i.quantity))

unfoldable pub proves_route :
    Db → String → String → ℕ → List (String × (String × String)) → IntentRow × OrderRow → Bool
unfolding lookup
proves_route db account epoch connected_at echoed (i, o) =
    leb connected_at i.created_at
    && (str_eq o.broker_account account
        && (is_concluded i.state
            && (not (is_rejected o.state)
                && (is_echoed epoch (lookup o.order_id echoed)
                    && are_of_sale i (fills_of_order (i, o) db)))))

abbrev pub order_of : Option (IntentRow × OrderRow) → Option String
order_of none = none
order_of (some (i, o)) = some o.order_id

abbrev pub exit_route :
    Db → String → String → List (String × (String × String)) → Option ℕ → Option String
exit_route db account epoch echoed none = none
exit_route db account epoch echoed (some connected_at) =
    if str_eq epoch ""
    then none
    else order_of (
        find (proves_route db account epoch connected_at echoed) (
          take 64 (
            sort_by newest_first (select (is_managed_sale db) (joined_rows db.intents db.orders)))))

unfoldable pub managed_exit_route :
    Db → String → String → Option ℕ → List (String × (String × String)) → Option String
unfolding proves_route joined_rows
managed_exit_route db account epoch connected_at echoed =
    exit_route db account epoch echoed connected_at
