-- ===== src/Orders/Outcome.antt =====
-- Every way a submission of dhan_cas_bot/orders.py can end, and the state that it leaves the intent in.
use dhan_bot.Orders.Sending.{Dispatched, dispatch-Dispatched}
use dhan_bot.Orders.Request.{OrderRequest, order_request}
use dhan_bot.Orders.Action.{◌>>◌, Account}
use dhan_bot.Risk.{worst_case_entry_cash, default_fees, reserve_cash}
use dhan_bot.Prelude.{
  ℕ, ◌+◌, ◌≤◌, ◌≡◌, ◌⊎◌, inl, inr, refl, arith, String, Bool, List, Result, ok, err, ◌≢◌, pos, ◌≤ℤ◌,
  subst, sym,
}
use dhan_bot.Domain.{buy, sell, Intent}
use dhan_bot.Ledger.{Db}
use dhan_bot.Orders.Submit.{
  Reply, submit, check_submission, Position, pending_sales, held_quantity, dispatch,
}

-- What the checks guarantee of a submission that passes them: the broker's request exists, a purchase reserves its worst case, a
-- sale with the sales that are pending is covered by the broker's position.
pub record IsPermitted (account : String) (x : Intent) (reserved : ℕ)
    (positions : Result (List Position)) (db : Db) : Type 0 where
  pub request : (q : OrderRequest) × (order_request x account ≡ ok q)
  pub for_purchase :
      x.side ≡ buy
      → (cash : ℕ) × (worst_case_entry_cash x.quantity x.limit_price 1 default_fees ≡ ok cash)
        × (reserve_cash cash ≤ reserved)
  pub for_sale :
      x.side ≡ sell
      → (rows : List Position) × (positions ≡ ok rows)
        × (pos (x.quantity + pending_sales x.instrument.security_id db)
            ≤ℤ held_quantity x.instrument.security_id rows)

buy-ne-sell : buy ≢ sell
buy-ne-sell = ground arith

check_submission-state :
    (account : String) (x : Intent) (reserved : ℕ) (ready : Bool)
    (positions : Result (List Position)) (s : Account)
    → (check_submission account x reserved ready positions s).1 ≡ s
unfolding check_submission
check_submission-state account x reserved ready positions s = ground arith

check_submission-IsPermitted :
    (account : String) (x : Intent) (reserved : ℕ) (ready : Bool)
    (positions : Result (List Position)) (s : Account)
    → (check_submission account x reserved ready positions s).0 ≡ ok tt
    → IsPermitted account x reserved positions s.db
unfolding check_submission
check_submission-IsPermitted account x reserved ready positions s h = record {
  request = ground arith;
  for_purchase = λ e. ground arith;
  for_sale = λ e. ground arith;
}

-- The outcome of a submission: nothing is written, or a permitted intent was dispatched.
abbrev pub Submitted :
    String
    → Intent
    → ℕ
    → Result (List Position)
    → Reply
    → Account
    → Result String
    → Account
    → Type 0
Submitted account x reserved positions reply s r s' =
    ((e : String) × (r ≡ err e) × (s' ≡ s))
    ⊎ (IsPermitted account x reserved positions s.db × Dispatched account x reply s r s')

checked-Submitted :
    (now : ℕ) (account : String) (x : Intent) (reserved : ℕ) (attempt_id : String)
    (positions : Result (List Position)) (reply : Reply) (s t : Account) (q : Result (Unit {0}))
    → t ≡ s
    → (q ≡ ok tt → IsPermitted account x reserved positions s.db)
    → let (r, s') =
        ((λ (u : Account). (q, t)) >> dispatch now account x reserved attempt_id reply) s in
      Submitted account x reserved positions reply s r s'
checked-Submitted now account x reserved attempt_id positions reply s t (ok tt) e permitted = inr (
  permitted refl,
  subst
      (λ u.
        let (r, s') = dispatch now account x reserved attempt_id reply u in
        Dispatched account x reply s r s')
      (sym e) (dispatch-Dispatched now account x reserved attempt_id reply s),
)
checked-Submitted now account x reserved attempt_id positions reply s t (err m) e permitted =
    inl (m, refl, e)

pub submit-Submitted :
    (now : ℕ) (account : String) (x : Intent) (reserved : ℕ) (ready : Bool) (attempt_id : String)
    (positions : Result (List Position)) (reply : Reply) (s : Account)
    → let (r, s') = submit now account x reserved ready attempt_id positions reply s in
      Submitted account x reserved positions reply s r s'
unfolding submit
submit-Submitted now account x reserved ready attempt_id positions reply s =
    let done = check_submission account x reserved ready positions s in
    checked-Submitted now account x reserved attempt_id positions reply s done.1 done.0
      (check_submission-state account x reserved ready positions s)
      (check_submission-IsPermitted account x reserved ready positions s)
