-- ===== src/Engine/Purchase.antt =====
-- The second half of `_enter` in dhan_cas_bot/engine.py: after the await of the funds, and around the
-- submission. What the feeds did during an await is in the session that the next part is given.
use dhan_bot.Engine.Capital.{allocation}
use dhan_bot.Ledger.{observe}
use dhan_bot.Engine.Choice.{child_quantity, same_book, book_id, choose_entry}
use dhan_bot.Orders.{Position, Reply, submit}
use dhan_bot.Runtime.{is_funded, entry_pending}
use dhan_bot.Risk.{Allocation, worst_case_entry_cash, reserve_cash, default_fees}
use dhan_bot.Ledger.{LifecycleRow, lookup}
use dhan_bot.Settlement.Final.{Stamp, FinalValue}
use dhan_bot.Strategy.{Opportunity, Observed, same_identity}
use dhan_bot.Engine.State.{Codec, Session, BookId}
use dhan_bot.Engine.Entry.{
  Refusal, no_candidate, inputs_changed, Rules, Moment, permitted, is_final_entry, in_auction,
}
use dhan_bot.Prelude.{
  [], none, ◌∷◌, ◌>>=◌, List, ℕ, Option, String, Bool, Result, err, ◌==◌, some, false, ◌⊎◌, true,
  inl, ok, ◌&&◌, if◌then◌else◌, ◌++◌, text_append, not, inr, str_eq, ◌||◌, ltb,
}
use dhan_bot.Domain.{
  cts_close, cas_lm_start, cas_m_stop, cas_stop, unknown, buy, CasPhase, FundsSnapshot, CasStatus,
  Intent, OptionBook,
}
use dhan_bot.Orders.Action.{Account}

abbrev pub same_phase : CasPhase → CasPhase → Bool
same_phase cts_close cts_close = true
same_phase cas_lm_start cas_lm_start = true
same_phase cas_m_stop cas_m_stop = true
same_phase cas_stop cas_stop = true
same_phase unknown unknown = true
same_phase _ _ = false

-- Equality of the dataclasses.
abbrev pub same_status : Option CasStatus → Option CasStatus → Bool
same_status none none = true
same_status (some s) (some t) =
    same_phase s.phase t.phase
    && s.updated_time_ms == t.updated_time_ms
    && s.trading_date == t.trading_date
    && str_eq s.status_epoch t.status_epoch
same_status _ _ = false

abbrev pub same_stamp : Stamp → Stamp → Bool
same_stamp x y = x.time == y.time && (if x.has_zone then y.has_zone else not y.has_zone)

abbrev pub same_final : Option FinalValue → Option FinalValue → Bool
same_final none none = true
same_final (some f) (some g) =
    f.trading_date == g.trading_date
    && f.value == g.value
    && str_eq f.source g.source
    && str_eq f.source_field g.source_field
    && same_stamp f.published_at g.published_at
    && same_stamp f.received_at g.received_at
    && str_eq f.revision g.revision
    && str_eq f.settlement_regime g.settlement_regime
    && str_eq f.finality_kind g.finality_kind
same_final _ _ = false

abbrev pub funded : Rules → FundsSnapshot → Session → Session
funded r f e = record e { runtime = record e.runtime { account_funded = is_funded r.mandate f } }

-- A choice that is permitted, with the allocation that it was made with.
abbrev pub Choice : Type 0
Choice = Opportunity × BookId × Allocation

abbrev pub settle_choice :
    Rules → Bool → Allocation → Option (Opportunity × BookId) → Session → (Option Refusal ⊎ Choice)
settle_choice r adds a none e = inl (some no_candidate)
settle_choice r adds a (some (o, id)) e = if permitted r adds e then inr (o, id, a) else inl none

-- From the funds to the choice. `admitted` is the session before the await and `e` the one after it;
-- a return that gives no reason is `inl none`.
unfoldable pub choose_after_funds :
    Codec
    → Rules
    → Bool
    → Option LifecycleRow
    → ℕ
    → FundsSnapshot
    → Session
    → Session
    → Result (Option Refusal ⊎ Choice) × Session
choose_after_funds c r adds row day funds admitted e =
    if not (same_status e.status admitted.status)
      || not (same_final e.final_value admitted.final_value)
      || not (permitted r adds e)
    then (ok (inl (some inputs_changed)), e)
    else let e' = funded r funds e in
      (
        (allocation c r.mandate funds row e' >>= λ a.
            choose_entry row day a e' >>= λ found. ok (settle_choice r adds a found e')),
        e',
      )

abbrev pub purchase_of : String → String → ℕ → String → Opportunity → Intent
purchase_of intent_id client_id now lifecycle_id o = record {
  intent_id = intent_id;
  side = buy;
  instrument = o.instrument;
  quantity = child_quantity o;
  limit_price = o.limit_price;
  client_order_id = client_id;
  created_at = now;
  lifecycle_id = lifecycle_id;
}

abbrev pub open_lifecycle :
    Codec → Option LifecycleRow → String → Allocation → Opportunity → Session → List LifecycleRow
open_lifecycle c (some row) id a o e = e.db.lifecycles
open_lifecycle c none id a o e =
    e.db.lifecycles
    ++ (record {
      lifecycle_id = id;
      session_id = c.of_day e.session_id;
      security_id = o.instrument.security_id;
      bankroll = a.bankroll;
      is_closed = false;
    }
        ∷ [])

abbrev pub lifecycle_id_of : Option LifecycleRow → String → String
lifecycle_id_of none fresh = fresh
lifecycle_id_of (some row) fresh = row.lifecycle_id

-- The evidence and the rows that are committed before the order: the lifecycle, where it is new, and
-- the depth that the order takes. `decision` is the text of the evidence.
unfoldable pub commit_choice :
    Codec → Option LifecycleRow → String → String → Choice → String → Session → Session
commit_choice c row lifecycle_id intent_id (o, id, a) decision e =
    let seen_db = observe (text_append "decision:" intent_id) decision e.db in
    record e {
      db = record seen_db { lifecycles = open_lifecycle c row lifecycle_id a o e };
      depth_debits = e.depth_debits ++ ((id, child_quantity o) ∷ []);
    }

abbrev pub same_latest : List Observed → List Observed → Bool
same_latest [] [] = true
same_latest (x ∷ []) (y ∷ []) = x.0 == y.0 && same_identity x.1 y.1
same_latest (x ∷ z ∷ xs) ys = same_latest (z ∷ xs) ys
same_latest xs (y ∷ z ∷ ys) = same_latest xs (z ∷ ys)
same_latest _ _ = false

abbrev pub is_book : Option OptionBook → String → BookId → Bool
is_book none security id = false
is_book (some b) security id = same_book (book_id security b) id

-- `current_inputs`, evaluated in the session `later` and at the moment of the dispatch.
unfoldable pub current_inputs : Rules → Bool → Choice → Session → Moment → Session → Bool
current_inputs r adds (o, id, a) chosen at later =
    let security = o.instrument.security_id in
    permitted r adds later
    && later.market_connected
    && same_status later.status chosen.status
    && same_final later.final_value chosen.final_value
    && (is_final_entry chosen || later.signal_connected && in_auction later.status)
    && same_latest later.observations chosen.observations
    && is_book (lookup security later.books) security id
    && at.day == later.session_id
    && ltb at.time (if is_final_entry chosen then 56310000000 else 55800000000)

abbrev pub entered : String → Result String × Account → Session → Result Bool × Session
entered reason (err m, s) e = (err m, record e { db = s.db; revision = s.revision })
entered reason (ok id, s) e = (
  ok true,
  record e {
    db = s.db;
    revision = s.revision;
    runtime = record e.runtime { state = entry_pending; reason = reason };
  },
)

abbrev pub send :
    ℕ
    → Rules
    → Intent
    → Result ℕ
    → Bool
    → String
    → Result (List Position)
    → Reply
    → Session
    → Result String × Account
send now r x (err m) ready attempt_id positions reply e =
    (err m, record { db = e.db; revision = e.revision })
send now r x (ok cash) ready attempt_id positions reply e =
    submit now r.mandate.account_id x (reserve_cash cash) ready attempt_id positions reply
      (record { db = e.db; revision = e.revision })

-- From the choice to the end: the rows are committed, the order is submitted, and the state follows.
unfoldable pub buy_choice :
    Codec
    → Rules
    → Option LifecycleRow
    → String
    → String
    → String
    → String
    → ℕ
    → Choice
    → String
    → Bool
    → Result (List Position)
    → Reply
    → Session
    → Result Bool × Session
buy_choice c r row fresh intent_id client_id attempt_id now choice decision ready positions reply
      e =
    let lifecycle_id = lifecycle_id_of row fresh in
    let committed = commit_choice c row lifecycle_id intent_id choice decision e in
    let x = purchase_of intent_id client_id now lifecycle_id choice.0 in
    entered choice.0.reason
      (send now r x (worst_case_entry_cash x.quantity x.limit_price 1 default_fees) ready attempt_id
        positions reply committed)
      committed
