-- ===== src/Orders/Controller.antt =====
-- src/orders/order.controller.ts. `getOrder`, `update` and `delete` pass on to the service. Arguments are
-- the test of `ParseUUIDPipe`, the sum and product of two numbers, and `toFixed(2)`.
use nest_js_ecomm_rd.Base.{
  ℕ, suc, String, Bool, true, false, not, ◌||◌, Option, List, [], ◌∷◌, if◌then◌else◌, Number,
  decimal, is_finite, is_positive,
}
use nest_js_ecomm_rd.Base.Int.{ℤ, pos, negsuc}
use nest_js_ecomm_rd.Errors.{bad_request, Result, ok, err, ◌>>=◌, ◌>>◌, throw_if}
use nest_js_ecomm_rd.Entities.{Order, OrderItem}
use nest_js_ecomm_rd.Database.{Tables, Orm}
use nest_js_ecomm_rd.Orders.Create.{Interference, CreateOrderDto, Created, create}
use nest_js_ecomm_rd.Orders.Manage.{get_order}
use nest_js_ecomm_rd.Client.Failures.{RpcError, DomainError}
use nest_js_ecomm_rd.Client.Retry.{Answer, Retried, Rxjs}
use nest_js_ecomm_rd.Client.Calls
use nest_js_ecomm_rd.Client.Calls.{
  Clocked, AuthorizePaymentRequest, AuthorizePaymentResponse, GetPaymentStatusResponse,
  Milliseconds, RetrySettings,
}

pub record AuthorizeOrderPaymentDto : Type 0 where
  pub currency : String
  pub idempotency_key : Option String
  pub simulate_unavailable_once : Option Bool

-- `HttpStatus.OK` and `HttpStatus.CREATED`
abbrev pub status_code : Bool → ℕ
status_code true = 200
status_code false = 201

-- The status and body of the response to `POST /orders`.
unfoldable pub create_order :
    Orm
    → Interference
    → String
    → (ℕ → String)
    → CreateOrderDto
    → Option String
    → Tables
    → Result (ℕ × Order) × Created
create_order orm others uuid iso body idempotency_key t =
    let made = create orm others uuid iso body idempotency_key t in
    (made.reply >>= λ (order, was_duplicate). ok (status_code was_duplicate, order), made)

-- `Number(quantity)`
abbrev pub to_number : ℤ → Number
to_number (pos n) = decimal false n 0
to_number (negsuc n) = decimal true (suc n) 0

-- `ParseUUIDPipe`
abbrev pub parse_uuid : (String → Bool) → String → Result (Unit {0})
parse_uuid is_uuid id =
    throw_if (not (is_uuid id)) (bad_request "Validation failed (uuid is expected)")

module _ (plus times : Number → Number → Number) where
  -- The callback of `reduce`, over the items that are left.
  abbrev pub add_items : Number → List OrderItem → Number
  add_items sum [] = sum
  add_items sum (item ∷ items) =
      add_items (plus sum (times item.price_snapshot (to_number item.quantity))) items

  abbrev pub total : Order → Number
  total order = add_items (decimal false 0 0) order.items

  -- What the client is asked for.
  abbrev pub payment_request :
      (Number → String) → Order → AuthorizeOrderPaymentDto → AuthorizePaymentRequest
  payment_request to_fixed order body = record {
    order_id = order.id;
    amount = to_fixed (total order);
    currency = body.currency;
    idempotency_key = body.idempotency_key;
    simulate_unavailable_once = body.simulate_unavailable_once;
  }

  -- The refusals, before anything is sent.
  unfoldable pub payable : Orm → (String → Bool) → String → Tables → Result Order
  payable orm is_uuid id t = do
    parse_uuid is_uuid id
    order ← get_order orm id t
    if not (is_finite (total order)) || not (is_positive (total order))
        then err (bad_request "Order total amount must be a positive number")
        else ok order

  module _ {S : Type 0} (rxjs : Rxjs RpcError AuthorizePaymentResponse (Clocked S) Milliseconds)
      (c : RetrySettings)
      (remote : AuthorizePaymentRequest → S → Answer RpcError AuthorizePaymentResponse × S)
      (to_fixed : Number → String) where
    unfoldable pub authorize_payment :
        Orm
        → (String → Bool)
        → String
        → AuthorizeOrderPaymentDto
        → Tables
        → S
        → Result (Retried DomainError AuthorizePaymentResponse S Milliseconds)
    authorize_payment orm is_uuid id body t s = do
      order ← payable orm is_uuid id t
      ok (Calls.authorize rxjs c remote (payment_request to_fixed order body) s)

unfoldable pub get_payment_status :
    {S : Type 0}
    → (String → S → Answer RpcError GetPaymentStatusResponse × S)
    → (String → Bool)
    → String
    → S
    → Result (Retried DomainError GetPaymentStatusResponse S Milliseconds)
get_payment_status remote is_uuid payment_id s = do
  parse_uuid is_uuid payment_id
  ok (Calls.get_payment_status remote payment_id s)
