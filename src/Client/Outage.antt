-- ===== src/Client/Outage.antt =====
-- The client against the payments service of this repository: one simulated outage is survived.
use nest_js_ecomm_rd.Base.{
  ℕ, ◌+◌, ◌≤◌, ◌<◌, String, ◌≡◌, ap, subst, ◌∙◌, true, false, Option, some, [], ◌∷◌, Number, arith,
  eq_iff, eq_refl,
}
use nest_js_ecomm_rd.Grpc
use nest_js_ecomm_rd.Grpc.{Rpc, reply, raise}
use nest_js_ecomm_rd.Payments
use nest_js_ecomm_rd.Payments.{
  PaymentsService, AuthorizePaymentResult, recall, should_fail_transient,
}
use nest_js_ecomm_rd.Payments.Controller
use nest_js_ecomm_rd.Payments.Controller.{AuthorizePayload, to_input}
use nest_js_ecomm_rd.Payments.Controller.Laws.{IsValid}
use nest_js_ecomm_rd.Client.Failures.{RpcError, code_of, is_transient_grpc_error}
use nest_js_ecomm_rd.Client.Retry.{
  Answer, value, failure, Retried, Runs, emits, used_up, gives_up, again, Rxjs,
}
use nest_js_ecomm_rd.Client.Calls.{
  AuthorizePaymentRequest, AuthorizePaymentResponse, Milliseconds, RetrySettings, backoff,
  retry_delay, authorize, Clocked, wait, ms, at_most, under_deadline,
}

-- gRPC between the two processes, while no call is lost or late: a reply arrives as a value with the
-- identifier of the payment, a status as an error that has its code.
pub record Transport : Type 0 where
  pub deliver : Rpc AuthorizePaymentResult → Answer RpcError AuthorizePaymentResponse
  pub deliver-reply :
      (r : AuthorizePaymentResult)
      → (a : AuthorizePaymentResponse) × (deliver (reply r) ≡ value a)
        × (a.payment_id ≡ r.payment_id)
  pub deliver-raise :
      (code : ℕ) (message : String)
      → (e : RpcError) × (deliver (raise code message) ≡ failure e) × (code_of e ≡ some code)

module _ {E A S W : Type 0} (count : ℕ) (delay : E → ℕ → Option W) (pass : W → S → S)
    (source : S → Answer E A × S) where
  pub Runs-value :
      (used : ℕ) (s s' : S) (a : A) (r : Retried E A S W)
      → Runs count delay pass source used s r
      → source s ≡ (value a, s')
      → r ≡ record { answer = value a; state = s'; waits = [] }
  Runs-value used s s' a _ (emits e) h = ground arith
  Runs-value used s s' a _ (used_up e k) h = cc
  Runs-value used s s' a _ (gives_up e k d) h = cc
  Runs-value used s s' a _ (again e k d rest) h = cc

  Runs-again :
      (used : ℕ) (s s' : S) (x : E) (w : W) (r : Retried E A S W)
      → Runs count delay pass source used s r
      → source s ≡ (failure x, s')
      → used < count
      → delay x (used + 1) ≡ some w
      → (r' : Retried E A S W) × Runs count delay pass source (used + 1) (pass w s') r'
        × (r ≡ record r' { waits = w ∷ r'.waits })
  Runs-again used s s' x w _ (emits e) h k d = absurd (cc)
  Runs-again used s s' x w _ (used_up e full) h k d = absurd (omega arith)
  Runs-again used s s' x w _ (gives_up {e = y} e l none_left) h k d = absurd (ground arith)
  Runs-again used s s' x w _ (again {s' = s''} {e = y} {w = v} {r = r'} e l d' rest) h k d =
      let same_state : s'' ≡ s' = ground arith in
      let same_wait : v ≡ w = ground arith in
      (
        r',
        subst (λ u. Runs count delay pass source (used + 1) u r')
            (ap (λ u. pass u s'') same_wait ∙ ap (pass w) same_state) rest,
        ap (λ u. record r' { waits = u ∷ r'.waits }) same_wait,
      )

module _ (transport : Transport) (number : String → Number) (uuid : String) where
  abbrev pub to_payload : AuthorizePaymentRequest → AuthorizePayload
  to_payload request = record {
    order_id = some request.order_id;
    amount = some request.amount;
    currency = some request.currency;
    idempotency_key = request.idempotency_key;
    simulate_unavailable_once = request.simulate_unavailable_once;
  }

  -- The remote call, with the controller at the other end.
  abbrev pub remote :
      AuthorizePaymentRequest
      → PaymentsService
      → Answer RpcError AuthorizePaymentResponse × PaymentsService
  remote request s =
      let (answer, s') = Controller.authorize number uuid (to_payload request) s in
      (transport.deliver answer, s')

  -- The first call meets the outage.
  remote-outage :
      (request : AuthorizePaymentRequest) (s : PaymentsService)
      → IsValid number (to_payload request) request.order_id
      → request.simulate_unavailable_once ≡ some true
      → s.transient_fail_once_gate request.order_id ≡ false
      → Controller.authorize number uuid (to_payload request) s ≡ (
        raise Grpc.unavailable "transient provider outage",
        (should_fail_transient request.order_id (some true) s).1,
      )
  unfolding Controller.authorize should_fail_transient
  remote-outage request s valid asks waiting =
      ground (arith, valid.named, valid.amount, valid.currency, eq_iff request.order_id "")

  -- The next call passes the gate.
  remote-reply :
      (request : AuthorizePaymentRequest) (s : PaymentsService)
      → IsValid number (to_payload request) request.order_id
      → request.simulate_unavailable_once ≡ some true
      → s.transient_fail_once_gate request.order_id ≡ true
      → Controller.authorize number uuid (to_payload request) s ≡ (
        reply (Payments.authorize uuid (to_input request.order_id (to_payload request)) s).0,
        (Payments.authorize uuid (to_input request.order_id (to_payload request)) s).1,
      )
  unfolding Controller.authorize should_fail_transient
  remote-reply request s valid asks closed =
      ground (arith, valid.named, valid.amount, valid.currency, eq_iff request.order_id "")

  gate_closes :
      (order_id : String) (s : PaymentsService)
      → s.transient_fail_once_gate order_id ≡ false
      → (should_fail_transient order_id (some true) s).1.transient_fail_once_gate order_id ≡ true
  unfolding should_fail_transient
  gate_closes order_id s h = ground (arith, eq_refl order_id)

  retries_outage :
      (c : RetrySettings) (e : RpcError)
      → code_of e ≡ some Grpc.unavailable
      → retry_delay c e (0 + 1) ≡ some (backoff c 1)
  unfolding retry_delay is_transient_grpc_error
  retries_outage c e h = ground arith

  -- A request that passes the controller's checks and asks for a simulated outage, for an order that has
  -- not had one, with at least one retry in the settings and a first backoff shorter than the timeout, while
  -- each call is answered at once: `authorize` retries once, after the first backoff, and answers with the
  -- payment that the service authorizes.
  pub authorize_survives_outage :
      (rxjs : Rxjs RpcError AuthorizePaymentResponse (Clocked PaymentsService) Milliseconds)
      (c : RetrySettings) (request : AuthorizePaymentRequest) (s : PaymentsService)
      → IsValid number (to_payload request) request.order_id
      → request.simulate_unavailable_once ≡ some true
      → s.transient_fail_once_gate request.order_id ≡ false
      → 1 ≤ c.max_retries
      → at_most c.timeout_ms (backoff c 1) ≡ false
      → let gated = (should_fail_transient request.order_id (some true) s).1 in
        let done = authorize rxjs c remote request s in
        (a : AuthorizePaymentResponse) × (done.answer ≡ value a)
        × (a.payment_id
            ≡ (Payments.authorize uuid
                (to_input request.order_id (to_payload request))
                gated).0.payment_id)
        × (done.waits ≡ backoff c 1 ∷ [])
        × (done.state
            ≡ (Payments.authorize uuid (to_input request.order_id (to_payload request)) gated).1)
  unfolding authorize under_deadline
  authorize_survives_outage rxjs c request s valid asks waiting retries in_time =
      let gated = (should_fail_transient request.order_id (some true) s).1 in
      let input = to_input request.order_id (to_payload request) in
      let source = under_deadline c.timeout_ms (remote request) in
      let start : Clocked PaymentsService = record { state = s; elapsed = ms 0 } in
      let failing : Clocked PaymentsService = record { state = gated; elapsed = ms 0 } in
      let ending : Clocked PaymentsService = record {
        state = (Payments.authorize uuid input gated).1;
        elapsed = backoff c 1;
      } in
      let (e, failed, code) =
        transport.deliver-raise Grpc.unavailable "transient provider outage" in
      let (a, answered, same) = transport.deliver-reply (Payments.authorize uuid input gated).0 in
      let first_call : remote request s ≡ (failure e, gated) =
        ap (λ (x : Rpc AuthorizePaymentResult × PaymentsService). (transport.deliver x.0, x.1))
          (remote-outage request s valid asks waiting)
        ∙ ap (λ x. (x, gated)) failed in
      let second_call : remote request gated ≡ (value a, (Payments.authorize uuid input gated).1) =
        ap (λ (x : Rpc AuthorizePaymentResult × PaymentsService). (transport.deliver x.0, x.1))
          (remote-reply request gated valid asks (gate_closes request.order_id s waiting))
        ∙ ap (λ x. (x, (Payments.authorize uuid input gated).1)) answered in
      let first : source start ≡ (failure e, failing) =
        ap
          (λ (x : Answer RpcError AuthorizePaymentResponse × PaymentsService).
            (x.0, record { state = x.1; elapsed = ms 0 }))
          first_call in
      let second : source (wait (backoff c 1) failing) ≡ (value a, ending) =
        ground (arith, second_call, in_time) in
      let runs = rxjs.retry-Runs c.max_retries (retry_delay c) wait source start in
      let (r', rest, whole) =
        Runs-again c.max_retries (retry_delay c) wait source 0 start failing e (backoff c 1) _ runs
          first (omega arith) (retries_outage c e code) in
      let ended =
        Runs-value c.max_retries (retry_delay c) wait source (0 + 1) (wait (backoff c 1) failing) _
          a r' rest second in
      (
        a,
        ground (arith, whole, ended),
        same,
        ground (arith, whole, ended),
        ground (arith, whole, ended),
      )
