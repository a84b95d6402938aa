-- ===== src/Orders/Request.antt =====
-- `order_request` of dhan_cas_bot/orders.py.
use dhan_bot.Prelude.{
  ℕ, String, Bool, false, Option, none, some, ltb, Result, ok, raise_if, ◌>>◌, suc,
}
use dhan_bot.Domain.{Side, Intent, tick}

-- The request's fixed keys (segment, product, order type, validity, no after-market order) are
-- the constants of the source and have no field.
pub record OrderRequest : Type 0 where
  pub client_id : String
  pub correlation_id : String
  pub transaction_type : Side
  pub security_id : String
  pub quantity : ℕ
  pub price : ℕ

abbrev pub below_lower : Option ℕ → ℕ → Bool
below_lower none price = false
below_lower (some l) price = ltb price l

abbrev pub above_upper : Option ℕ → ℕ → Bool
above_upper none price = false
above_upper (some u) price = ltb u price

-- The length of a text in characters.
abbrev pub text_length : String → ℕ
text_length String.[] = 0
text_length (String.◌∷◌ c s) = suc (text_length s)

unfoldable pub order_request : Intent → String → Result OrderRequest
order_request x account = do
  raise_if (ltb 30 (text_length x.client_order_id)) "Dhan correlationId exceeds 30 characters"
  tick x.instrument x.limit_price
  raise_if (ltb x.instrument.freeze_qty x.quantity) "child order exceeds current quantity freeze"
  raise_if (below_lower x.instrument.lower_limit x.limit_price)
      "order price outside instrument band"
  raise_if (above_upper x.instrument.upper_limit x.limit_price)
      "order price outside instrument band"
  ok (record {
    client_id = account;
    correlation_id = x.client_order_id;
    transaction_type = x.side;
    security_id = x.instrument.security_id;
    quantity = x.quantity;
    price = x.limit_price;
  })
