-- ===== src/Route/Budget.antt =====
-- A qualification stays within the budgets of the session and of the mandate.

use dhan_bot.Prelude.{
  ℕ, ◌+◌, ◌≡◌, ◌⊎◌, inl, inr, refl, sym, ap, ◌∙◌, subst, arith, String, str_eq, true, not, ◌||◌, [],
  Result, ok, err, ℤ, pos, ◌+ℤ◌, ◌≤ℤ◌, ltb_ℤ, eq_refl,
}
use dhan_bot.Domain.{OptionBook, Intent, check_intent, FundsSnapshot}
use dhan_bot.Ledger.{Db, counter, set_counter, or_nought, lookup, put_metadata}
use dhan_bot.Orders.{submit}
use dhan_bot.Orders.Action.{Action, Account, pure, lift, refuse_if, ◌>>=◌, ◌>>◌}
use dhan_bot.Route.Grants.{Codec, extra_attempts}
use dhan_bot.Route.Qualify.{
  RouteProof, RouteQualifier, Outside, attempts_key, debit_key, Budget, budgeted, probe_intent,
  charge, send_probe, qualify, is_foreign, reply_rejected, proof_of,
}
use dhan_bot.Route.Keys.{
  debit_key-ne-attempts_key, debit_key-ne-spent, spent-ne-attempts_key, counter-set_counter,
}
use dhan_bot.Route.Counters.{KeepsCounters, bind-KeepsCounters, submit-KeepsCounters}
use dhan_bot.Route.Checks.{read_cases, IsBudget, IsProbeCost, IsSpent, budgeted-Checks}

module _ (codec : Codec) (q : RouteQualifier) where
  -- A charge of the session: one attempt and the cost of the probe, within the limits.
  pub record IsCharged (now : ℕ) (book : OptionBook) (s t : Account) : Type 0 where
    pub cost : ℕ
    pub priced : IsProbeCost book cost
    pub attempts :
        counter (attempts_key q.session_id) t.db ≡ counter (attempts_key q.session_id) s.db +ℤ pos 1
    pub debit :
        counter (debit_key q.session_id) t.db ≡ counter (debit_key q.session_id) s.db +ℤ pos cost
    pub spent :
        (before : ℕ) × IsSpent s.db before × (counter "probe.spent" t.db ≡ pos (before + cost))
    pub few :
        counter (attempts_key q.session_id) t.db
        ≤ℤ pos (q.max_attempts + extra_attempts codec s.db q.session_id q.max_attempts now)
    pub capped : counter (debit_key q.session_id) t.db ≤ℤ pos q.debit_cap
    pub mandated : counter "probe.spent" t.db ≤ℤ pos q.mandate_spend_cap

  send_probe-KeepsCounters :
      (o : Outside) (epoch : String) (x : Intent) (cost : ℕ)
      → KeepsCounters (send_probe q o epoch x cost)
  unfolding send_probe
  send_probe-KeepsCounters o epoch x cost =
      let foreign =
        refuse_if (is_foreign q.account_id o.reply_account)
          "qualification response account mismatch" in
      let rejected = refuse_if (reply_rejected o.reply) "rejected probe cannot qualify route" in
      let proof = λ (id : String). pure (proof_of epoch q.account_id o.proved_at id) in
      bind-KeepsCounters (submit o.sent_at q.account_id x cost true o.attempt_id (ok []) o.reply)
        (λ id. foreign >> (rejected >> proof id))
        (submit-KeepsCounters o.sent_at q.account_id x cost true o.attempt_id (ok []) o.reply)
        (λ id.
          bind-KeepsCounters foreign (λ t. rejected >> proof id) (λ s. refl)
            (λ t. bind-KeepsCounters rejected (λ u. proof id) (λ s. refl) (λ u s. refl)))

  -- The database once the counters are set.
  abbrev charged_db : ℤ → ℤ → ℤ → Db → Db
  charged_db attempts spent debit db =
      set_counter (debit_key q.session_id) debit
        (set_counter "probe.spent" spent (set_counter (attempts_key q.session_id) attempts db))

  counter_of_counters :
      (k : String) (a b : Db) → a.counters ≡ b.counters → counter k a ≡ counter k b
  unfolding counter
  counter_of_counters k a b e = ap (λ rows. or_nought (lookup k rows)) e

  charged_attempts :
      (n v d : ℤ) (db : Db) → counter (attempts_key q.session_id) (charged_db n v d db) ≡ n
  charged_attempts n v d db =
      let ak = attempts_key q.session_id in
      let first = set_counter ak n db in
      rw (
        counter-set_counter (debit_key q.session_id) ak d (set_counter "probe.spent" v first),
        debit_key-ne-attempts_key q.session_id,
        counter-set_counter "probe.spent" ak v first,
        spent-ne-attempts_key q.session_id,
        counter-set_counter ak ak n db,
        eq_refl ak,
      )

  charged_spent : (n v d : ℤ) (db : Db) → counter "probe.spent" (charged_db n v d db) ≡ v
  charged_spent n v d db =
      let first = set_counter (attempts_key q.session_id) n db in
      rw (
        counter-set_counter (debit_key q.session_id) "probe.spent" d
            (set_counter "probe.spent" v first),
        debit_key-ne-spent q.session_id,
        counter-set_counter "probe.spent" "probe.spent" v first,
      )

  charged_debit : (n v d : ℤ) (db : Db) → counter (debit_key q.session_id) (charged_db n v d db) ≡ d
  charged_debit n v d db =
      let dk = debit_key q.session_id in
      let earlier = set_counter "probe.spent" v (set_counter (attempts_key q.session_id) n db) in
      rw (counter-set_counter dk dk d earlier, eq_refl dk)

  charged :
      (now : ℕ) (book : OptionBook) (s t : Account) (b : Budget)
      → IsBudget codec q now book s b
      → t.db.counters
        ≡ (charged_db
            (b.attempts +ℤ pos 1)
            (pos (b.spent + b.cost))
            (b.debit +ℤ pos b.cost)
            s.db).counters
      → IsCharged now book s t
  charged now book s t b h e =
      let n = b.attempts +ℤ pos 1 in
      let v = pos (b.spent + b.cost) in
      let d = b.debit +ℤ pos b.cost in
      let final = charged_db n v d s.db in
      let attempts =
        counter_of_counters (attempts_key q.session_id) t.db final e
        ∙ charged_attempts n v d s.db in
      let debit =
        counter_of_counters (debit_key q.session_id) t.db final e ∙ charged_debit n v d s.db in
      let spent = counter_of_counters "probe.spent" t.db final e ∙ charged_spent n v d s.db in
      record {
        cost = b.cost;
        priced = h.priced;
        spent = (b.spent, h.counted, spent);
        attempts = attempts ∙ ap (λ a. a +ℤ pos 1) h.attempts;
        debit = debit ∙ ap (λ a. a +ℤ pos b.cost) h.debit;
        few =
            subst
              (λ a.
                a
                ≤ℤ pos (q.max_attempts + extra_attempts codec s.db q.session_id q.max_attempts now))
              (sym attempts) h.few;
        capped = subst (λ a. a ≤ℤ pos q.debit_cap) (sym debit) h.capped;
        mandated =
            subst (λ a. a ≤ℤ pos q.mandate_spend_cap) (sym spent) (omega (arith, h.mandated));
      }

  -- The end of a qualification whose checks passed.
  abbrev pay_and_send : Outside → String → Budget → Intent → Action RouteProof
  pay_and_send o epoch b x =
      charge codec q.session_id
        (record { epoch = epoch; correlation_id = x.client_order_id; intent_id = x.intent_id })
        (b.attempts +ℤ pos 1) (pos (b.spent + b.cost)) (b.debit +ℤ pos b.cost)
      >> send_probe q o epoch x b.cost

  pay_and_send-IsCharged :
      (book : OptionBook) (o : Outside) (epoch : String) (b : Budget) (x : Intent) (s : Account)
      → IsBudget codec q o.checked_at book s b
      → IsCharged o.checked_at book s (pay_and_send o epoch b x s).1
  unfolding charge put_metadata
  pay_and_send-IsCharged book o epoch b x s h =
      charged o.checked_at book s (pay_and_send o epoch b x s).1 b h
        (send_probe-KeepsCounters o epoch x b.cost _)

  abbrev Outcome : ℕ → OptionBook → Account → Result RouteProof × Account → Type 0
  Outcome now book s out = ((e : String) × (out ≡ (err e, s))) ⊎ IsCharged now book s out.1

  -- A qualification either raises before it changes anything, or it has charged the session, however
  -- the order that it then sends ends: the counter of the attempts has grown by one and is at most
  -- the limit and the extra attempts granted at that time, the counter of the debit has grown by the cost of the
  -- probe, which is what the worst case of buying its lot at its price reserves, and is within the session's
  -- cap, and the counter of what the probes spent is what their purchases had spent or reserved and that cost, and
  -- is within the mandate's cap.
  pub qualify-IsCharged :
      (o : Outside) (book : OptionBook) (epoch : String) (s : Account)
      → ((e : String) × (qualify codec q o book epoch s ≡ (err e, s)))
        ⊎ IsCharged o.checked_at book s (qualify codec q o book epoch s).1
  unfolding qualify
  qualify-IsCharged o book epoch s =
      let no : (e : String) → Outcome o.checked_at book s (err e, s) = λ e. inl (e, refl) in
      let intent = lift (check_intent (probe_intent book.instrument o)) in
      let last = λ (b : Budget) (x : Intent). pay_and_send o epoch b x in
      let affordable = λ (b : Budget) (funds : FundsSnapshot).
        refuse_if
          (not (str_eq funds.broker_account q.account_id)
            || ltb_ℤ funds.spendable_cash (pos b.cost))
          "qualification cash unavailable" in
      let checks = budgeted-Checks codec q o.checked_at book s in
      let Ends = Outcome o.checked_at book s in
      read_cases (budgeted codec q o.checked_at book)
        (λ b. lift o.funds >>= λ f. affordable b f >> (intent >>= last b)) s Ends checks.0 no
        (λ b hb.
          read_cases (lift o.funds) (λ f. affordable b f >> (intent >>= last b)) s Ends refl no
            (λ f hf.
              read_cases (affordable b f) (λ u. intent >>= last b) s Ends refl no
                (λ u hu. read_cases intent (last b) s Ends refl no (λ x hx.
                  inr
                    (pay_and_send-IsCharged book o epoch b x s (checks.1 b (ap (λ p. p.0) hb)))))))
