-- ===== src/Payments/Defs.antt =====
-- The state and operations of `PaymentsService` (payments-service/payments.service.ts). The service
-- object is the record `PaymentsService`; a method takes it and returns it with the method's result.
-- `randomUUID()` is an argument of `authorize`.
use nest_js_ecomm_rd.Base.{
  ℕ, String, Bool, true, false, not, ◌&&◌, Option, none, some, ◌==◌, if◌then◌else◌, truthy, Map,
  StringSet, empty_map, set, add,
}

-- The numbers are those of the enum in proto/payments.proto.
pub data PaymentStatus : Type 0 where
  unspecified authorized captured refunded failed : PaymentStatus

abbrev pub enum_number : PaymentStatus → ℕ
enum_number unspecified = 0
enum_number authorized = 1
enum_number captured = 2
enum_number refunded = 3
enum_number failed = 4

-- `a === b`
abbrev pub same_status : PaymentStatus → PaymentStatus → Bool
same_status a b = enum_number a == enum_number b

pub record PaymentRecord : Type 0 where
  pub payment_id : String
  pub order_id : String
  pub status : PaymentStatus
  pub amount : String
  pub currency : String

pub record AuthorizePaymentInput : Type 0 where
  pub order_id : String
  pub amount : String
  pub currency : String
  pub idempotency_key : Option String

pub record AuthorizePaymentResult : Type 0 where
  pub payment_id : String
  pub status : PaymentStatus

pub record GetPaymentStatusResult : Type 0 where
  pub payment_id : String
  pub status : PaymentStatus

pub record PaymentOperationResult : Type 0 where
  pub ok : Bool
  pub message : String

pub data OperationErrorCode : Type 0 where
  not_found failed_precondition : OperationErrorCode

pub data OperationOutcome : Type 0 where
  ok : PaymentOperationResult → OperationOutcome
  error : OperationErrorCode → String → OperationOutcome

-- The argument of `capture` and of `refund`.
pub record OperationInput : Type 0 where
  pub payment_id : String
  pub idempotency_key : Option String

pub record PaymentsService : Type 0 where
  pub payments_by_id : Map PaymentRecord
  pub authorize_idempotency_results : Map AuthorizePaymentResult
  pub capture_idempotency_results : Map OperationOutcome
  pub refund_idempotency_results : Map OperationOutcome
  pub transient_fail_once_gate : StringSet

abbrev pub initial : PaymentsService
initial = record {
  payments_by_id = empty_map;
  authorize_idempotency_results = empty_map;
  capture_idempotency_results = empty_map;
  refund_idempotency_results = empty_map;
  transient_fail_once_gate = λ order_id. false;
}

module _ {V : Type 0} where
  -- `key && storage.has(key)`, with the result of `storage.get(key)!`.
  abbrev pub recall : Map V → Option String → Option V
  recall storage key = elim (truthy key) [ none ↦ none | some k ↦ storage k ]

  -- `if (key) storage.set(key, outcome)`, the body of `persistOperationOutcome`.
  abbrev pub persist : Map V → Option String → V → Map V
  persist storage key outcome = elim (truthy key) [
    | none ↦ storage
    | some k ↦ set k outcome storage
  ]

-- The record that `authorize` files.
abbrev pub new_payment : String → AuthorizePaymentInput → PaymentRecord
new_payment payment_id input = record {
  payment_id = payment_id;
  order_id = input.order_id;
  status = authorized;
  amount = input.amount;
  currency = input.currency;
}

unfoldable pub authorize :
    String → AuthorizePaymentInput → PaymentsService → AuthorizePaymentResult × PaymentsService
authorize payment_id input s = elim (recall s.authorize_idempotency_results input.idempotency_key) [
  | some known ↦ (known, s)
  | none ↦
      let result : AuthorizePaymentResult = record {
        payment_id = payment_id;
        status = authorized;
      } in
      (
        result,
        record s {
          payments_by_id = set payment_id (new_payment payment_id input) s.payments_by_id;
          authorize_idempotency_results =
              persist s.authorize_idempotency_results input.idempotency_key result;
        },
      )
]

abbrev pub done : String → OperationOutcome
done message = ok (record { ok = true; message = message })

-- `payment.status = status` on the record that the map holds under `id`.
abbrev write_status : String → PaymentRecord → PaymentStatus → PaymentsService → PaymentsService
write_status id payment status s = record s {
  payments_by_id = set id (record payment { status = status }) s.payments_by_id;
}

-- `persistOperationOutcome` on the store of `capture`.
abbrev persist_capture :
    Option String → OperationOutcome → PaymentsService → OperationOutcome × PaymentsService
persist_capture key outcome s = (
  outcome,
  record s { capture_idempotency_results = persist s.capture_idempotency_results key outcome },
)

-- `persistOperationOutcome` on the store of `refund`.
abbrev persist_refund :
    Option String → OperationOutcome → PaymentsService → OperationOutcome × PaymentsService
persist_refund key outcome s = (
  outcome,
  record s { refund_idempotency_results = persist s.refund_idempotency_results key outcome },
)

-- `capture` from the point where the payment is found.
unfoldable pub capture_found :
    OperationInput → PaymentRecord → PaymentsService → OperationOutcome × PaymentsService
capture_found input payment s =
    if same_status payment.status refunded
    then persist_capture input.idempotency_key
        (error failed_precondition "cannot capture refunded payment") s
    else if same_status payment.status captured
    then persist_capture input.idempotency_key (done "payment already captured") s
    else if not (same_status payment.status authorized)
    then persist_capture input.idempotency_key
        (error failed_precondition "payment must be authorized before capture") s
    else persist_capture input.idempotency_key (done "payment captured")
        (write_status input.payment_id payment captured s)

unfoldable pub capture : OperationInput → PaymentsService → OperationOutcome × PaymentsService
unfolding capture_found
capture input s = elim (recall s.capture_idempotency_results input.idempotency_key) [
  | some known ↦ (known, s)
  | none ↦ elim (s.payments_by_id input.payment_id) [
    | none ↦ persist_capture input.idempotency_key (error not_found "payment not found") s
    | some payment ↦ capture_found input payment s
  ]
]

-- `refund` from the point where the payment is found.
unfoldable pub refund_found :
    OperationInput → PaymentRecord → PaymentsService → OperationOutcome × PaymentsService
refund_found input payment s =
    if same_status payment.status refunded
    then persist_refund input.idempotency_key (done "payment already refunded") s
    else if not (same_status payment.status authorized) && not (same_status payment.status captured)
    then persist_refund input.idempotency_key
        (error failed_precondition "payment must be authorized or captured before refund") s
    else persist_refund input.idempotency_key (done "payment refunded")
        (write_status input.payment_id payment refunded s)

unfoldable pub refund : OperationInput → PaymentsService → OperationOutcome × PaymentsService
unfolding refund_found
refund input s = elim (recall s.refund_idempotency_results input.idempotency_key) [
  | some known ↦ (known, s)
  | none ↦ elim (s.payments_by_id input.payment_id) [
    | none ↦ persist_refund input.idempotency_key (error not_found "payment not found") s
    | some payment ↦ refund_found input payment s
  ]
]

unfoldable pub get_status : String → PaymentsService → Option GetPaymentStatusResult
get_status payment_id s = elim (s.payments_by_id payment_id) [
  | none ↦ none
  | some payment ↦ some (record { payment_id = payment.payment_id; status = payment.status })
]

unfoldable pub should_fail_transient :
    String → Option Bool → PaymentsService → Bool × PaymentsService
should_fail_transient order_id simulate_unavailable_once s = elim simulate_unavailable_once [
  | some true ↦
      if s.transient_fail_once_gate order_id
      then (false, s)
      else (true, record s { transient_fail_once_gate = add order_id s.transient_fail_once_gate })
  | _ ↦ (false, s)
]
