-- ===== src/Client/Calls.antt =====
-- The calls and the settings of `PaymentsGrpcClient`. `remote` is a call over gRPC and the
-- `timeout` operator, which is code of libraries: it gives an answer, the error of a call that is late among
-- them, and leaves a state. The time that counts against the deadline is that of the waits before retries.
use nest_js_ecomm_rd.Base.{
  ℕ, ◌+◌, ◌-◌, ◌*◌, ◌^◌, String, Bool, false, not, ◌&&◌, Option, none, some, [], leb, if◌then◌else◌,
  get_or, Number, decimal, is_integer, is_nonneg, to_ℕ, ◌==◌,
}
use nest_js_ecomm_rd.Grpc
use nest_js_ecomm_rd.Client.Failures.{
  RpcError, object, DomainError, is_transient_grpc_error, map_rpc_error,
}
use nest_js_ecomm_rd.Client.Retry.{Answer, value, failure, Retried, Rxjs}

pub record AuthorizePaymentRequest : Type 0 where
  pub order_id : String
  pub amount : String
  pub currency : String
  pub idempotency_key : Option String
  pub simulate_unavailable_once : Option Bool

pub record AuthorizePaymentResponse : Type 0 where
  pub payment_id : String
  pub status : String

-- `GetPaymentStatusResponse` has the same fields.
abbrev pub GetPaymentStatusResponse : Type 0
GetPaymentStatusResponse = AuthorizePaymentResponse

-- A finite number above zero, mantissa / 10 ^ scale, of milliseconds.
pub record Milliseconds : Type 0 where
  pub mantissa : ℕ
  pub scale : ℕ

abbrev pub ms : ℕ → Milliseconds
ms n = record { mantissa = n; scale = 0 }

-- `!Number.isFinite(value) || value <= 0` selects the fallback.
abbrev pub positive_or : Number → Milliseconds → Milliseconds
positive_or (decimal false mantissa scale) fallback =
    if mantissa == 0 then fallback else record { mantissa = mantissa; scale = scale }
positive_or _ fallback = fallback

abbrev pub or_else : Option String → Option String → Option String
or_else none other = other
or_else (some s) other = some s

pub record RetrySettings : Type 0 where
  pub timeout_ms : Milliseconds
  pub max_retries : ℕ
  pub backoff_ms : Milliseconds
  pub max_backoff_ms : Milliseconds

module _ (number : String → Number) (get : String → Option String) where
  unfoldable pub get_timeout_ms : Milliseconds
  get_timeout_ms =
      positive_or
        (number (
          get_or (or_else (get "PAYMENTS_GRPC_TIMEOUT_MS") (get "PAYMENTS_RPC_TIMEOUT_MS")) "1000"))
        (ms 1000)

  unfoldable pub get_authorize_max_retries : ℕ
  get_authorize_max_retries =
      let value = number (get_or (get "PAYMENTS_GRPC_AUTHORIZE_MAX_RETRIES") "2") in
      if is_integer value && is_nonneg value then to_ℕ value else 2

  unfoldable pub get_retry_backoff_ms : Milliseconds
  get_retry_backoff_ms =
      positive_or (number (get_or (get "PAYMENTS_GRPC_RETRY_BACKOFF_MS") "150")) (ms 150)

  unfoldable pub get_retry_max_backoff_ms : Milliseconds
  get_retry_max_backoff_ms =
      positive_or (number (get_or (get "PAYMENTS_GRPC_RETRY_MAX_BACKOFF_MS") "2000")) (ms 2000)

  pub retry_settings : RetrySettings
  retry_settings = record {
    timeout_ms = get_timeout_ms;
    max_retries = get_authorize_max_retries;
    backoff_ms = get_retry_backoff_ms;
    max_backoff_ms = get_retry_max_backoff_ms;
  }

-- `a <= b`
abbrev pub at_most : Milliseconds → Milliseconds → Bool
at_most a b = leb (a.mantissa * 10 ^ b.scale) (b.mantissa * 10 ^ a.scale)

-- `Math.min(a, b)`
abbrev pub shorter : Milliseconds → Milliseconds → Milliseconds
shorter a b = if at_most a b then a else b

-- `baseBackoffMs * Math.pow(2, retryIndex - 1)`, cut off at the limit.
unfoldable pub backoff : RetrySettings → ℕ → Milliseconds
backoff c retry_index =
    shorter (record c.backoff_ms { mantissa = c.backoff_ms.mantissa * 2 ^ (retry_index - 1) })
      c.max_backoff_ms

-- The callback `delay`.
unfoldable pub retry_delay : RetrySettings → RpcError → ℕ → Option Milliseconds
retry_delay c error retry_index =
    if is_transient_grpc_error error then some (backoff c retry_index) else none

-- `throw this.mapRpcError(error)` in place of the error.
abbrev pub mapped : {A S W : Type 0} → Retried RpcError A S W → Retried DomainError A S W
mapped r = record {
  answer = elim r.answer [ value a ↦ value a | failure error ↦ failure (map_rpc_error error) ];
  state = r.state;
  waits = r.waits;
}

-- `a + b`
abbrev pub add_ms : Milliseconds → Milliseconds → Milliseconds
add_ms a b = if a.mantissa == 0 then b else record {
  mantissa = a.mantissa * 10 ^ b.scale + b.mantissa * 10 ^ a.scale;
  scale = a.scale + b.scale;
}

-- A state, with the time since the deadline was fixed.
pub record Clocked (S : Type 0) : Type 0 where
  pub state : S
  pub elapsed : Milliseconds

abbrev pub wait : {S : Type 0} → Milliseconds → Clocked S → Clocked S
wait w x = record x { elapsed = add_ms x.elapsed w }

-- DEADLINE_EXCEEDED, as grpc-js raises it.
abbrev pub late : RpcError
late = object (some "Error") (some Grpc.deadline_exceeded) (some "Deadline exceeded")

-- `deadline: new Date(Date.now() + timeoutMs)` is fixed once: a call after it fails at once. The timeout is above
-- zero, so that no call without a wait before it is late.
abbrev pub expired : Milliseconds → Milliseconds → Bool
expired timeout_ms elapsed = not (elapsed.mantissa == 0) && at_most timeout_ms elapsed

unfoldable pub under_deadline :
    {A S : Type 0}
    → Milliseconds
    → (S → Answer RpcError A × S)
    → Clocked S
    → Answer RpcError A × Clocked S
under_deadline timeout_ms call x =
    let (answer, s') = call x.state in
    if expired timeout_ms x.elapsed then (failure late, x) else (answer, record x { state = s' })

abbrev pub unclocked : {E A S W : Type 0} → Retried E A (Clocked S) W → Retried E A S W
unclocked r = record { answer = r.answer; state = r.state.state; waits = r.waits }

module _ {S : Type 0} (rxjs : Rxjs RpcError AuthorizePaymentResponse (Clocked S) Milliseconds)
    (c : RetrySettings) where
  unfoldable pub authorize :
      (AuthorizePaymentRequest → S → Answer RpcError AuthorizePaymentResponse × S)
      → AuthorizePaymentRequest
      → S
      → Retried DomainError AuthorizePaymentResponse S Milliseconds
  authorize remote payload s = mapped (
      unclocked (
        rxjs.retry c.max_retries (retry_delay c) wait (under_deadline c.timeout_ms (remote payload))
          (record { state = s; elapsed = ms 0 })))

-- One call without a retry.
unfoldable pub get_payment_status :
    {S : Type 0}
    → (String → S → Answer RpcError GetPaymentStatusResponse × S)
    → String
    → S
    → Retried DomainError GetPaymentStatusResponse S Milliseconds
get_payment_status remote payment_id s =
    let (answer, s') = remote payment_id s in
    mapped (record { answer = answer; state = s'; waits = [] })
