-- ===== src/Payments/Controller.antt =====
-- src/payments-service/payments.grpc.controller.ts: validation of a request, the call of the service,
-- and its outcome as a gRPC reply or status. `number` is JavaScript's `Number` on texts.
pub mod Laws
use nest_js_ecomm_rd.Base.{
  ℕ, String, Bool, true, false, not, ◌&&◌, Option, none, some, List, [], ◌∷◌, leb, if◌then◌else◌,
  truthy, get_or, codes, Number, is_finite, is_positive,
}
use nest_js_ecomm_rd.Grpc
use nest_js_ecomm_rd.Grpc.{Rpc, reply, raise}
use nest_js_ecomm_rd.Payments.Defs
use nest_js_ecomm_rd.Payments.Defs.{
  AuthorizePaymentResult, GetPaymentStatusResult, PaymentOperationResult, OperationErrorCode,
  OperationOutcome, OperationInput, PaymentsService, should_fail_transient,
}

pub record AuthorizePayload : Type 0 where
  pub order_id : Option String
  pub amount : Option String
  pub currency : Option String
  pub idempotency_key : Option String
  pub simulate_unavailable_once : Option Bool

pub record OperationPayload : Type 0 where
  pub payment_id : Option String
  pub idempotency_key : Option String

abbrev pub is_upper : ℕ → Bool
is_upper c = leb b'A' c && leb c b'Z'

abbrev pub three_upper : List ℕ → Bool
three_upper (a ∷ b ∷ c ∷ []) = is_upper a && is_upper b && is_upper c
three_upper _ = false

-- `/^[A-Z]{3}$/.test(s)`
unfoldable pub is_currency : String → Bool
is_currency s = three_upper (codes s)

-- What the service is asked once the payload has passed the checks.
abbrev pub to_input : String → AuthorizePayload → Defs.AuthorizePaymentInput
to_input order_id payload = record {
  order_id = order_id;
  amount = get_or payload.amount "";
  currency = get_or payload.currency "";
  idempotency_key = payload.idempotency_key;
}

module _ (number : String → Number) where
  -- `Number.isFinite(v) && v > 0` for `v = Number(payload.amount ?? '')`.
  abbrev pub is_amount : Option String → Bool
  is_amount amount =
      is_finite (number (get_or amount "")) && is_positive (number (get_or amount ""))

  unfoldable pub authorize :
      String → AuthorizePayload → PaymentsService → Rpc AuthorizePaymentResult × PaymentsService
  authorize uuid payload s = elim (truthy payload.order_id) [
    | none ↦ (raise Grpc.invalid_argument "order_id is required", s)
    | some order_id ↦
        if not (is_amount payload.amount)
        then (raise Grpc.invalid_argument "amount must be > 0", s)
        else if not (is_currency (get_or payload.currency ""))
        then (raise Grpc.invalid_argument "currency must be 3 uppercase letters", s)
        else let (fails, gated) =
            should_fail_transient order_id payload.simulate_unavailable_once s in
          if fails
          then (raise Grpc.unavailable "transient provider outage", gated)
          else let (result, s') = Defs.authorize uuid (to_input order_id payload) gated in
            (reply result, s')
  ]

unfoldable pub get_payment_status : String → PaymentsService → Rpc GetPaymentStatusResult
get_payment_status payment_id s = elim (Defs.get_status payment_id s) [
  | none ↦ raise Grpc.not_found "payment not found"
  | some payment ↦ reply payment
]

abbrev status_code : OperationErrorCode → ℕ
status_code OperationErrorCode.not_found = Grpc.not_found
status_code OperationErrorCode.failed_precondition = Grpc.failed_precondition

abbrev pub to_reply : OperationOutcome → Rpc PaymentOperationResult
to_reply (OperationOutcome.ok response) = reply response
to_reply (OperationOutcome.error code message) = raise (status_code code) message

unfoldable pub capture :
    OperationPayload → PaymentsService → Rpc PaymentOperationResult × PaymentsService
capture payload s = elim (truthy payload.payment_id) [
  | none ↦ (raise Grpc.invalid_argument "payment_id is required", s)
  | some payment_id ↦
      let (outcome, s') =
        Defs.capture (record { payment_id = payment_id; idempotency_key = payload.idempotency_key })
          s in
      (to_reply outcome, s')
]

unfoldable pub refund :
    OperationPayload → PaymentsService → Rpc PaymentOperationResult × PaymentsService
refund payload s = elim (truthy payload.payment_id) [
  | none ↦ (raise Grpc.invalid_argument "payment_id is required", s)
  | some payment_id ↦
      let (outcome, s') =
        Defs.refund (record { payment_id = payment_id; idempotency_key = payload.idempotency_key })
          s in
      (to_reply outcome, s')
]
