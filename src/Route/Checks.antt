-- ===== src/Route/Checks.antt =====
-- What the checks of a qualification of dhan_cas_bot/route.py find, in a state that they leave alone.
use dhan_bot.Ledger.Totals.{Totals}
use dhan_bot.Risk.{worst_case_entry_cash, default_fees, reserve_cash}
use dhan_bot.Prelude.{
  ℕ, ◌+◌, ◌≤◌, ◌≡◌, refl, sym, ap, ◌∙◌, subst, arith, String, Bool, false, ◌||◌, ltb, Result, ok,
  err, ℤ, pos, ◌+ℤ◌, ◌≤ℤ◌, ltb_ℤ, leb_ℤ, int_laws, ◌<ℤ◌,
}
use dhan_bot.Domain.{OptionBook, top_bid}
use dhan_bot.Ledger.{Db, counter, lifecycle_totals}
use dhan_bot.Orders.Action.{Action, Account, pure, lift, gets, refuse_if, ◌>>=◌, ◌>>◌}
use dhan_bot.Route.Grants.{Codec, extra_attempts}
use dhan_bot.Route.Qualify.{
  RouteQualifier, attempts_key, debit_key, Budget, budgeted, probe_cost, no_lot, not_below,
  probe_price, check_debit,
}

-- An action that leaves the state alone, followed by another.
module _ {A B : Type 0} (m : Action A) (f : A → Action B) (s : Account)
    (P : Result B × Account → Type 0) where
  read_step :
      (r : Result A) (t : Account)
      → t ≡ s
      → m s ≡ (r, t)
      → ((e : String) → P (err e, s))
      → ((a : A) → m s ≡ (ok a, s) → P (f a s))
      → P (((λ (u : Account). (r, t)) >>= f) s)
  read_step (ok a) t same e raised done =
      subst (λ u. P (f a u)) (sym same) (done a (e ∙ ap (λ u. (ok a, u)) same))
  read_step (err x) t same e raised done = subst (λ u. P (err x, u)) (sym same) (raised x)

  pub read_cases :
      (m s).1 ≡ s
      → ((e : String) → P (err e, s))
      → ((a : A) → m s ≡ (ok a, s) → P (f a s))
      → P ((m >>= f) s)
  read_cases same raised done = read_step (m s).0 (m s).1 same refl raised done

refuse_if-ok :
    (test : Bool) (message : String) (s : Account) {u : Unit {0}}
    → refuse_if test message s ≡ (ok u, s)
    → test ≡ false
refuse_if-ok test message s h = let e = ap (λ p. p.0) h in ground (arith, e)

gets-ok :
    {A : Type 0} (f : Db → Result A) (s : Account) {a : A} → gets f s ≡ (ok a, s) → f s.db ≡ ok a
gets-ok f s h = ap (λ p. p.0) h

leb_ℤ-false : (a b : ℤ) → leb_ℤ a b ≡ false → b <ℤ a
leb_ℤ-false a b h = ground arith

within_cap : (a b : ℤ) (other : Bool) → (ltb_ℤ a b || other) ≡ false → b ≤ℤ a
within_cap a b other h = ground arith

within_spend : (a b : ℕ) (other : Bool) → (other || ltb a b) ≡ false → b ≤ a
within_spend a b other h = ground arith

ok_injective : {A : Type 0} {x y : A} → ok x ≡ ok y → x ≡ y
ok_injective h = cc

-- The cost of a probe: what the worst case of buying its lot reserves.
abbrev pub IsProbeCost : OptionBook → ℕ → Type 0
IsProbeCost book cost =
    (cash : ℕ) × (worst_case_entry_cash book.instrument.lot_size (probe_price book.instrument) 1
        default_fees
      ≡ ok cash)
    × (cost ≡ reserve_cash cash)

-- What the purchases of the probes have spent or reserved.
abbrev pub IsSpent : Db → ℕ → Type 0
IsSpent db spent =
    (t : Totals) × (lifecycle_totals "route-probe" db ≡ ok t) × (spent ≡ t.entry_debit + t.reserved)

lift-ok : {A : Type 0} (r : Result A) (s : Account) {a : A} → lift r s ≡ (ok a, s) → r ≡ ok a
lift-ok r s h = ap (λ p. p.0) h

probe_cost-IsProbeCost :
    (book : OptionBook) (s : Account)
    → ((probe_cost book s).1 ≡ s) × ((c : ℕ) → (probe_cost book s).0 ≡ ok c → IsProbeCost book c)
unfolding probe_cost
probe_cost-IsProbeCost book s =
    let i = book.instrument in
    let lot = refuse_if (no_lot i (top_bid book)) "no one-lot bid for qualification" in
    let below =
      refuse_if (not_below (probe_price i) (top_bid book))
        "no positive non-marketable probe price" in
    let cash = lift (worst_case_entry_cash i.lot_size (probe_price i) 1 default_fees) in
    let cost = λ (c : ℕ). pure (reserve_cash c) in
    let Priced =
      λ (out : Result ℕ × Account). (out.1 ≡ s) × ((c : ℕ) → out.0 ≡ ok c → IsProbeCost book c) in
    let no : (e : String) → Priced (err e, s) = λ e. (refl, λ c h. cc) in
    read_cases lot (λ t. below >> (cash >>= cost)) s Priced refl no
      (λ t h.
        read_cases below (λ u. cash >>= cost) s Priced refl no
          (λ u k.
            read_cases cash cost s Priced refl no
              (λ c l. (refl, λ d m. (c, lift-ok _ s l, sym (ok_injective m))))))

module _ (codec : Codec) (q : RouteQualifier) (now : ℕ) (book : OptionBook) where
  -- What the checks of the budgets found, in the state before the charge.
  pub record IsBudget (s : Account) (b : Budget) : Type 0 where
    pub attempts : b.attempts ≡ counter (attempts_key q.session_id) s.db
    pub debit : b.debit ≡ counter (debit_key q.session_id) s.db
    pub few :
        b.attempts +ℤ pos 1
        ≤ℤ pos (q.max_attempts + extra_attempts codec s.db q.session_id q.max_attempts now)
    pub priced : IsProbeCost book b.cost
    pub counted : IsSpent s.db b.spent
    pub capped : b.debit +ℤ pos b.cost ≤ℤ pos q.debit_cap
    pub mandated : b.spent + b.cost ≤ q.mandate_spend_cap

  abbrev pub Checks : Account → Result Budget × Account → Type 0
  Checks s out = (out.1 ≡ s) × ((b : Budget) → out.0 ≡ ok b → IsBudget s b)

  refused : (s : Account) (e : String) → Checks s (err e, s)
  refused s e = (refl, λ b h. cc)

  -- The last of the checks, once everything is read.
  checked :
      (s : Account) (attempts : ℤ) (spent extra cost : ℕ) (debit : ℤ)
      → attempts ≡ counter (attempts_key q.session_id) s.db
      → debit ≡ counter (debit_key q.session_id) s.db
      → extra ≡ extra_attempts codec s.db q.session_id q.max_attempts now
      → IsProbeCost book cost
      → IsSpent s.db spent
      → leb_ℤ (pos (q.max_attempts + extra)) attempts ≡ false
      → Checks s (check_debit q attempts spent cost debit s)
  checked s attempts spent extra cost debit a d granted priced counted room =
      let over =
        ltb_ℤ (pos q.debit_cap) (debit +ℤ pos cost) || ltb q.mandate_spend_cap (spent + cost) in
      let b : Budget = record { attempts = attempts; debit = debit; spent = spent; cost = cost } in
      read_cases (refuse_if over "qualification debit budget exhausted") (λ t. pure b) s (Checks s)
        refl (refused s)
        (λ t h. (
          refl,
          λ c k. subst (IsBudget s) (ok_injective k) (record {
            attempts = a;
            debit = d;
            few =
                omega (int_laws, leb_ℤ-false (pos (q.max_attempts + extra)) attempts room, granted);
            priced = priced;
            counted = counted;
            capped = within_cap (pos q.debit_cap) (debit +ℤ pos cost) _ (refuse_if-ok over _ s h);
            mandated = within_spend q.mandate_spend_cap (spent + cost) _ (refuse_if-ok over _ s h);
          }),
        ))

  pub budgeted-Checks : (s : Account) → Checks s (budgeted codec q now book s)
  unfolding budgeted
  budgeted-Checks s =
      let read_attempts = gets (λ db. ok (counter (attempts_key q.session_id) db)) in
      let read_extra = gets (λ db. ok (extra_attempts codec db q.session_id q.max_attempts now)) in
      let read_debit = gets (λ db. ok (counter (debit_key q.session_id) db)) in
      let full = λ (attempts : ℤ) (extra : ℕ).
        refuse_if (leb_ℤ (pos (q.max_attempts + extra)) attempts)
          "qualification attempt budget exhausted" in
      let last = λ (attempts : ℤ) (t : Totals) (cost : ℕ).
        read_debit >>= λ debit. check_debit q attempts (t.entry_debit + t.reserved) cost debit in
      let priced =
        λ (attempts : ℤ) (t : Totals). probe_cost book >>= λ cost. last attempts t cost in
      let counted = λ (attempts : ℤ) (t : Totals).
        read_extra >>= λ extra. full attempts extra >> priced attempts t in
      read_cases read_attempts (λ n. gets (lifecycle_totals "route-probe") >>= λ t. counted n t) s
        (Checks s) refl (refused s)
        (λ n hn.
          read_cases (gets (lifecycle_totals "route-probe")) (λ t. counted n t) s (Checks s) refl
            (refused s)
            (λ t ht.
              read_cases read_extra (λ x. full n x >> priced n t) s (Checks s) refl (refused s)
                (λ x hx.
                  read_cases (full n x) (λ u. priced n t) s (Checks s) refl (refused s)
                    (λ u hu.
                      read_cases (probe_cost book) (λ c. last n t c) s (Checks s)
                        (probe_cost-IsProbeCost book s).0 (refused s)
                        (λ c hc.
                          read_cases read_debit
                            (λ d. check_debit q n (t.entry_debit + t.reserved) c d) s (Checks s)
                            refl (refused s)
                            (λ d hd.
                              checked s n (t.entry_debit + t.reserved) x c d
                                (sym (
                                  ok_injective (
                                    gets-ok (λ db. ok (counter (attempts_key q.session_id) db)) s
                                      hn)))
                                (sym (
                                  ok_injective (
                                    gets-ok (λ db. ok (counter (debit_key q.session_id) db)) s hd)))
                                (sym (
                                  ok_injective (
                                    gets-ok
                                      (λ db.
                                        ok
                                          (extra_attempts codec db q.session_id q.max_attempts now))
                                      s hx)))
                                ((probe_cost-IsProbeCost book s).1 c (ap (λ p. p.0) hc))
                                (t, gets-ok (lifecycle_totals "route-probe") s ht, refl)
                                (refuse_if-ok _ _ s hu)))))))
