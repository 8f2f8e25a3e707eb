-- ===== src/Client/Failures.antt =====
-- Errors of a remote call, and what the API makes of them (`mapRpcError`). An error is read through
-- its `name`, `code` and `details`; `thrown` is a value that is no object, or null.
use nest_js_ecomm_rd.Base.{
  ℕ, String, ◌≡◌, ◌↔◌, ◌⊎◌, Bool, true, false, Option, none, some, if◌then◌else◌, str_eq, get_or,
  arith, ◌==◌,
}
use nest_js_ecomm_rd.Grpc
use Prim.Native.String.{◌++◌ as concat}

pub data RpcError : Type 0 where
  thrown : RpcError
  object : (name : Option String) (code : Option ℕ) (details : Option String) → RpcError

-- The exceptions of `@nestjs/common` that are extended here.
pub data HttpException : Type 0 where
  bad_request not_found conflict gateway_timeout service_unavailable bad_gateway : HttpException

-- An exception with its payload (`DomainErrorPayload`).
pub record DomainError : Type 0 where
  pub extends : HttpException
  pub code : String
  pub message : String
  pub retryable : Bool

abbrev pub orders_payment_validation_error : String → DomainError
orders_payment_validation_error message = record {
  extends = bad_request;
  code = "ORDERS_PAYMENT_VALIDATION_FAILED";
  message = message;
  retryable = false;
}

abbrev pub orders_payment_not_found_error : String → DomainError
orders_payment_not_found_error message = record {
  extends = not_found;
  code = "ORDERS_PAYMENT_NOT_FOUND";
  message = message;
  retryable = false;
}

abbrev pub orders_payment_conflict_error : String → DomainError
orders_payment_conflict_error message = record {
  extends = conflict;
  code = "ORDERS_PAYMENT_CONFLICT";
  message = message;
  retryable = false;
}

abbrev pub orders_payment_timeout_error : String → DomainError
orders_payment_timeout_error message = record {
  extends = gateway_timeout;
  code = "ORDERS_PAYMENT_TIMEOUT";
  message = message;
  retryable = true;
}

abbrev pub orders_payment_unavailable_error : String → DomainError
orders_payment_unavailable_error message = record {
  extends = service_unavailable;
  code = "ORDERS_PAYMENT_UNAVAILABLE";
  message = message;
  retryable = true;
}

abbrev pub orders_payment_integration_error : String → DomainError
orders_payment_integration_error message = record {
  extends = bad_gateway;
  code = "ORDERS_PAYMENT_INTEGRATION_ERROR";
  message = message;
  retryable = false;
}

abbrev pub code_of : RpcError → Option ℕ
code_of thrown = none
code_of (object name code details) = code

abbrev pub details_of : RpcError → Option String
details_of thrown = none
details_of (object name code details) = details

-- `code === status`
abbrev pub has_code : RpcError → ℕ → Bool
has_code error status = elim (code_of error) [ none ↦ false | some code ↦ code == status ]

abbrev pub is_timeout_error : RpcError → Bool
is_timeout_error (object (some name) code details) = str_eq name "TimeoutError"
is_timeout_error _ = false

unfoldable pub is_transient_grpc_error : RpcError → Bool
is_transient_grpc_error error = has_code error Grpc.unavailable

unfoldable pub map_rpc_error : RpcError → DomainError
map_rpc_error error =
    let message = get_or (details_of error) "unknown grpc error" in
    if is_timeout_error error
    then orders_payment_timeout_error "Payments RPC timeout exceeded"
    else if has_code error Grpc.invalid_argument
    then orders_payment_validation_error (concat "Payments validation failed: " message)
    else if has_code error Grpc.not_found
    then orders_payment_not_found_error (concat "Payment not found: " message)
    else if has_code error Grpc.failed_precondition
    then orders_payment_conflict_error (concat "Payment state conflict: " message)
    else if has_code error Grpc.already_exists
    then orders_payment_conflict_error (concat "Payment duplicate request conflict: " message)
    else if has_code error Grpc.deadline_exceeded
    then orders_payment_timeout_error (concat "Payments deadline exceeded: " message)
    else if has_code error Grpc.unavailable
    then orders_payment_unavailable_error (concat "Payments temporarily unavailable: " message)
    else orders_payment_integration_error (concat "Payments RPC failed: " message)

-- The client gave up waiting, or the status is DEADLINE_EXCEEDED or UNAVAILABLE.
abbrev pub MayPass : RpcError → Type 0
MayPass error =
    (is_timeout_error error ≡ true)
    ⊎ ((code_of error ≡ some Grpc.deadline_exceeded) ⊎ (code_of error ≡ some Grpc.unavailable))

-- The caller is told to retry exactly when the call timed out or the service was not available.
map_rpc_error_retryable :
    (error : RpcError) → ((map_rpc_error error).retryable ≡ true) ↔ MayPass error
unfolding map_rpc_error
map_rpc_error_retryable error = (λ h. ground arith, λ h. ground arith)
