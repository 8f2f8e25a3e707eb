-- ===== src/Client/Tests.antt =====
-- The client on concrete calls, with a `retry` that obeys the law.
use nest_js_ecomm_rd.Base.{
  ℕ, ◌+◌, String, ◌≡◌, refl, true, false, some, [], ◌∷◌, Number, decimal, nan, arith, str_eq,
  if◌then◌else◌,
}
use nest_js_ecomm_rd.Payments
use nest_js_ecomm_rd.Payments.{
  PaymentsService, AuthorizePaymentResult, initial, should_fail_transient,
}
use nest_js_ecomm_rd.Payments.Controller.{to_input, is_currency}
use nest_js_ecomm_rd.Client.Failures.{RpcError, object}
use nest_js_ecomm_rd.Client.Retry.{Answer, value, failure}
use nest_js_ecomm_rd.Client.Calls.{
  AuthorizePaymentRequest, AuthorizePaymentResponse, backoff, authorize,
}
use nest_js_ecomm_rd.Client.Loop.{rxjs, usual, transport}
use nest_js_ecomm_rd.Client.Outage.{to_payload, remote, authorize_survives_outage}

abbrev request : AuthorizePaymentRequest
request = record {
  order_id = "o1";
  amount = "10.50";
  currency = "EUR";
  idempotency_key = some "k1";
  simulate_unavailable_once = some true;
}

abbrev outage : RpcError
outage = object (some "Error") (some 14) (some "down")

abbrev down : AuthorizePaymentRequest → ℕ → Answer RpcError AuthorizePaymentResponse × ℕ
down payload calls = (failure outage, calls + 1)

-- `Number` on two texts.
abbrev number : String → Number
number s = if str_eq s "10.50" then decimal false 1050 2 else nan

authorize_survives_outage_example :
    let gated = (should_fail_transient "o1" (some true) initial).1 in
    let done = authorize rxjs usual (remote transport number "p1") request initial in
    let input = to_input "o1" (to_payload transport number "p1" request) in
    (a : AuthorizePaymentResponse) × (done.answer ≡ value a)
    × (a.payment_id ≡ (Payments.authorize "p1" input gated).0.payment_id)
    × (done.waits ≡ backoff usual 1 ∷ [])
    × (done.state ≡ (Payments.authorize "p1" input gated).1)
unfolding is_currency backoff
authorize_survives_outage_example =
    authorize_survives_outage transport number "p1" rxjs usual request initial
      (record { order = refl; named = λ e. cc; amount = refl; currency = refl }) refl refl
      (omega arith) refl
