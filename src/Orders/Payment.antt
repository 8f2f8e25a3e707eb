-- ===== src/Orders/Payment.antt =====
-- Paying for an order: the HTTP controller, the client, gRPC and the payments service together.
use nest_js_ecomm_rd.Base.{
  String, ◌≡◌, ◌≢◌, sym, ap, subst, ◌∙◌, Bool, true, false, Option, none, some, List, [], Number,
  is_finite, is_positive, arith, eq_iff, eq_refl,
}
use nest_js_ecomm_rd.Errors.{ok}
use nest_js_ecomm_rd.Entities.{Order}
use nest_js_ecomm_rd.Database.{Tables, Orm}
use nest_js_ecomm_rd.Grpc.{reply}
use nest_js_ecomm_rd.Payments
use nest_js_ecomm_rd.Payments.{
  PaymentsService, AuthorizePaymentResult, PaymentRecord, authorized, new_payment, recall,
  should_fail_transient,
}
use nest_js_ecomm_rd.Payments.Calls.{Call, run}
use nest_js_ecomm_rd.Payments.Idempotency.{authorize_replay}
use nest_js_ecomm_rd.Payments.Controller
use nest_js_ecomm_rd.Payments.Controller.{to_input}
use nest_js_ecomm_rd.Payments.Controller.Laws.{IsValid}
use nest_js_ecomm_rd.Client.Failures.{RpcError, DomainError}
use nest_js_ecomm_rd.Client.Retry.{Answer, Retried, Rxjs, value}
use nest_js_ecomm_rd.Client.Calls
use nest_js_ecomm_rd.Client.Calls.{
  AuthorizePaymentRequest, AuthorizePaymentResponse, Milliseconds, RetrySettings, retry_delay,
  Clocked, wait, ms, under_deadline,
}
use nest_js_ecomm_rd.Client.Outage.{Transport, to_payload, remote, Runs-value}
use nest_js_ecomm_rd.Orders.Manage.{get_order}
use nest_js_ecomm_rd.Orders.Controller.{
  AuthorizeOrderPaymentDto, total, payment_request, payable, authorize_payment,
}

-- The identifier of a request is a UUID and the order is there, with a total that can be paid.
pub record IsPayable (plus times : Number → Number → Number) (orm : Orm) (is_uuid : String → Bool)
    (id : String) (t : Tables) (order : Order) : Type 0 where
  pub uuid : is_uuid id ≡ true
  pub stored : get_order orm id t ≡ ok order
  pub finite : is_finite (total plus times order) ≡ true
  pub positive : is_positive (total plus times order) ≡ true

IsPayable-payable :
    (plus times : Number → Number → Number) (orm : Orm) (is_uuid : String → Bool) (id : String)
    (t : Tables) (order : Order)
    → IsPayable plus times orm is_uuid id t order
    → payable plus times orm is_uuid id t ≡ ok order
unfolding payable
IsPayable-payable plus times orm is_uuid id t order h =
    ground (arith, h.uuid, h.stored, h.finite, h.positive)

passes_gate :
    (order_id : String) (flag : Option Bool) (s : PaymentsService)
    → (should_fail_transient order_id flag s).0 ≡ false
    → should_fail_transient order_id flag s ≡ (false, s)
unfolding should_fail_transient
passes_gate order_id flag s h = ground arith

module _ (transport : Transport) (number : String → Number) where
  -- The service replies to a valid request that meets no outage.
  remote-authorize :
      (uuid : String) (request : AuthorizePaymentRequest) (s : PaymentsService)
      → IsValid number (to_payload transport number uuid request) request.order_id
      → (should_fail_transient request.order_id request.simulate_unavailable_once s).0 ≡ false
      → let input = to_input request.order_id (to_payload transport number uuid request) in
        remote transport number uuid request s ≡ (
          transport.deliver (reply (Payments.authorize uuid input s).0),
          (Payments.authorize uuid input s).1,
        )
  unfolding Controller.authorize
  remote-authorize uuid request s valid no_outage =
      let passed = passes_gate request.order_id request.simulate_unavailable_once s no_outage in
      ground (arith, valid.named, valid.amount, valid.currency, eq_iff request.order_id "", passed)

  module _ (rxjs : Rxjs RpcError AuthorizePaymentResponse (Clocked PaymentsService) Milliseconds)
      (c : RetrySettings) where
    -- The client answers without a retry.
    client-authorize :
        (uuid : String) (request : AuthorizePaymentRequest) (s : PaymentsService)
        → IsValid number (to_payload transport number uuid request) request.order_id
        → (should_fail_transient request.order_id request.simulate_unavailable_once s).0 ≡ false
        → let input = to_input request.order_id (to_payload transport number uuid request) in
          (a : AuthorizePaymentResponse) × (a.payment_id
            ≡ (Payments.authorize uuid input s).0.payment_id)
          × (Calls.authorize rxjs c (remote transport number uuid) request s ≡ record {
            answer = value a;
            state = (Payments.authorize uuid input s).1;
            waits = [];
          })
    unfolding Calls.authorize under_deadline
    client-authorize uuid request s valid no_outage =
        let input = to_input request.order_id (to_payload transport number uuid request) in
        let (a, answered, same) = transport.deliver-reply (Payments.authorize uuid input s).0 in
        let source = under_deadline c.timeout_ms (remote transport number uuid request) in
        let start : Clocked PaymentsService = record { state = s; elapsed = ms 0 } in
        let end : Clocked PaymentsService = record {
          state = (Payments.authorize uuid input s).1;
          elapsed = ms 0;
        } in
        let replied =
          remote-authorize uuid request s valid no_outage
          ∙ ap (λ x. (x, (Payments.authorize uuid input s).1)) answered in
        let called : source start ≡ (value a, end) =
          ap
            (λ (x : Answer RpcError AuthorizePaymentResponse × PaymentsService).
              (x.0, record { state = x.1; elapsed = ms 0 }))
            replied in
        let ended =
          Runs-value c.max_retries (retry_delay c) wait source 0 start end a _
            (rxjs.retry-Runs c.max_retries (retry_delay c) wait source start) called in
        (a, same, ground (arith, ended))

    module _ (plus times : Number → Number → Number) (to_fixed : Number → String) (orm : Orm)
        (is_uuid : String → Bool) where
      -- A valid request to pay for an order that can be paid, which meets no outage and has a key that is
      -- new to the service, is answered at once with a payment, and the service has that payment on file:
      -- AUTHORIZED, for this order, with the total of its items as the amount.
      pub authorize_payment_files :
          (uuid id : String) (body : AuthorizeOrderPaymentDto) (t : Tables) (s : PaymentsService)
          (order : Order)
          → let request = payment_request plus times to_fixed order body in
            IsPayable plus times orm is_uuid id t order
            → IsValid number (to_payload transport number uuid request) order.id
            → (should_fail_transient order.id body.simulate_unavailable_once s).0 ≡ false
            → recall s.authorize_idempotency_results body.idempotency_key ≡ none
            → (made : Retried DomainError AuthorizePaymentResponse PaymentsService Milliseconds)
              × (authorize_payment plus times rxjs c
                    (remote transport number uuid)
                    to_fixed
                    orm
                    is_uuid
                    id
                    body
                    t
                    s
                  ≡ ok made)
              × (made.waits ≡ [])
              × (a : AuthorizePaymentResponse) × (made.answer ≡ value a)
              × (made.state.payments_by_id a.payment_id
                  ≡ some (record {
                    payment_id = a.payment_id;
                    order_id = order.id;
                    status = authorized;
                    amount = to_fixed (total plus times order);
                    currency = body.currency;
                  }))
      unfolding authorize_payment Payments.authorize
      authorize_payment_files uuid id body t s order payable_now valid no_outage new_key =
          let request = payment_request plus times to_fixed order body in
          let found = IsPayable-payable plus times orm is_uuid id t order payable_now in
          let (a, same, whole) = client-authorize uuid request s valid no_outage in
          let named : a.payment_id ≡ uuid = same ∙ ground (arith, new_key) in
          (
            Calls.authorize rxjs c (remote transport number uuid) request s,
            ground (arith, found),
            ap (λ r. r.waits) whole,
            a,
            ap (λ r. r.answer) whole,
            ap (λ r. r.state.payments_by_id a.payment_id) whole
                ∙ ground (arith, named, new_key, eq_refl uuid),
          )

      -- A second valid request with the same idempotency key that can be paid and meets no outage, after any
      -- other calls of the service and for any order, is answered with the payment of the first and leaves
      -- the service as it was: nothing is authorized twice under one key.
      pub authorize_payment_once :
          (uuid uuid' id id' key : String) (body body' : AuthorizeOrderPaymentDto) (t t' : Tables)
          (s : PaymentsService) (order order' : Order) (calls : List Call)
          → let request = payment_request plus times to_fixed order body in
            let request' = payment_request plus times to_fixed order' body' in
            let first = Calls.authorize rxjs c (remote transport number uuid) request s in
            let later = run first.state calls in
            key ≢ ""
            → body.idempotency_key ≡ some key
            → body'.idempotency_key ≡ some key
            → IsPayable plus times orm is_uuid id t order
            → IsValid number (to_payload transport number uuid request) order.id
            → (should_fail_transient order.id body.simulate_unavailable_once s).0 ≡ false
            → IsPayable plus times orm is_uuid id' t' order'
            → IsValid number (to_payload transport number uuid' request') order'.id
            → (should_fail_transient order'.id body'.simulate_unavailable_once later).0 ≡ false
            → (second : Retried DomainError AuthorizePaymentResponse PaymentsService Milliseconds)
              × (authorize_payment plus times rxjs c
                    (remote transport number uuid)
                    to_fixed
                    orm
                    is_uuid
                    id
                    body
                    t
                    s
                  ≡ ok first)
              × (authorize_payment plus times rxjs c
                    (remote transport number uuid')
                    to_fixed
                    orm
                    is_uuid
                    id'
                    body'
                    t'
                    later
                  ≡ ok second)
              × (a : AuthorizePaymentResponse) × (a' : AuthorizePaymentResponse) × (first.answer
                  ≡ value a)
              × (second.answer ≡ value a')
              × (a'.payment_id ≡ a.payment_id)
              × (second.state ≡ later)
      unfolding authorize_payment
      authorize_payment_once uuid uuid' id id' key body body' t t' s order order' calls named e e'
            can valid passes can' valid' passes' =
          let request = payment_request plus times to_fixed order body in
          let request' = payment_request plus times to_fixed order' body' in
          let input = to_input order.id (to_payload transport number uuid request) in
          let input' = to_input order'.id (to_payload transport number uuid' request') in
          let first = Calls.authorize rxjs c (remote transport number uuid) request s in
          let later = run first.state calls in
          let second = Calls.authorize rxjs c (remote transport number uuid') request' later in
          let found = IsPayable-payable plus times orm is_uuid id t order can in
          let found' = IsPayable-payable plus times orm is_uuid id' t' order' can' in
          let (a, same, whole) = client-authorize uuid request s valid passes in
          let (a', same', whole') = client-authorize uuid' request' later valid' passes' in
          let went_on : later ≡ run (Payments.authorize uuid input s).1 calls =
            ap (λ r. run r.state calls) whole in
          let again : Payments.authorize uuid' input' later
              ≡ ((Payments.authorize uuid input s).0, later) =
            subst
              (λ u. Payments.authorize uuid' input' u ≡ ((Payments.authorize uuid input s).0, u))
              (sym went_on) (authorize_replay uuid uuid' input input' s key calls named e e') in
          (
            second,
            ground (arith, found),
            ground (arith, found'),
            a,
            a',
            ap (λ r. r.answer) whole,
            ap (λ r. r.answer) whole',
            same' ∙ ap (λ x. x.0.payment_id) again ∙ sym same,
            ap (λ r. r.state) whole' ∙ ap (λ x. x.1) again,
          )
