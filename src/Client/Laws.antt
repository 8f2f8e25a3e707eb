-- ===== src/Client/Laws.antt =====
-- How often and how long `PaymentsGrpcClient.authorize` retries, and when it fails.
use nest_js_ecomm_rd.Base.{
  ℕ, zero, suc, ◌+◌, ◌≤◌, ◌≡◌, ◌⊎◌, inl, inr, refl, false, none, List, [], ◌∷◌, length, arith,
}
use nest_js_ecomm_rd.Client.Failures.{RpcError, DomainError, is_transient_grpc_error, map_rpc_error}
use nest_js_ecomm_rd.Client.Retry.{
  Answer, value, failure, Retried, Runs, emits, used_up, gives_up, again, Rxjs,
}
use nest_js_ecomm_rd.Client.Calls.{
  AuthorizePaymentRequest, AuthorizePaymentResponse, Milliseconds, RetrySettings, backoff,
  retry_delay, authorize, Clocked, wait, ms, under_deadline,
}

-- The waits after the retries `from` + 1, `from` + 2, …
abbrev pub schedule : RetrySettings → ℕ → ℕ → List Milliseconds
schedule c from zero = []
schedule c from (suc n) = backoff c (from + 1) ∷ schedule c (from + 1) n

delay-none :
    (c : RetrySettings) (e : RpcError) (i : ℕ)
    → retry_delay c e i ≡ none
    → is_transient_grpc_error e ≡ false
unfolding retry_delay
delay-none c e i h = ground arith

module _ {A S : Type 0} (c : RetrySettings) (pass : Milliseconds → S → S)
    (source : S → Answer RpcError A × S) where
  abbrev Ends : ℕ → S → Retried RpcError A S Milliseconds → Type 0
  Ends = Runs c.max_retries (retry_delay c) pass source

  -- A failure is the last answer, and it is either no outage or all retries have been used.
  Runs-failure :
      (used : ℕ) (s : S) (r : Retried RpcError A S Milliseconds) (error : RpcError)
      → used ≤ c.max_retries
      → Ends used s r
      → r.answer ≡ failure error
      → (is_transient_grpc_error error ≡ false) ⊎ (length r.waits + used ≡ c.max_retries)
  Runs-failure used s _ error k (emits e) f = cc
  Runs-failure used s _ error k (used_up e h) f = inr (omega arith)
  Runs-failure used s _ error k (gives_up {e = x} e h d) f =
      inl (ground (arith, delay-none c x (used + 1) d))
  Runs-failure used s _ error k (again {r = r} e h d rest) f =
      elim (Runs-failure (used + 1) _ r error (omega arith) rest f) [
        | inl other ↦ inl other
        | inr full ↦ inr (omega arith)
      ]

module _ {S : Type 0} (rxjs : Rxjs RpcError AuthorizePaymentResponse (Clocked S) Milliseconds)
    (c : RetrySettings)
    (remote : AuthorizePaymentRequest → S → Answer RpcError AuthorizePaymentResponse × S)
    (payload : AuthorizePaymentRequest) (s : S) where
  abbrev source : Clocked S → Answer RpcError AuthorizePaymentResponse × Clocked S
  source = under_deadline c.timeout_ms (remote payload)

  abbrev start : Clocked S
  start = record { state = s; elapsed = ms 0 }

  -- An error of `authorize` is the mapped last error of the remote call, and either that is no outage
  -- (its status is not UNAVAILABLE), or all the retries have been used.
  authorize_failure :
      (d : DomainError)
      → (authorize rxjs c remote payload s).answer ≡ failure d
      → (error : RpcError) × (d ≡ map_rpc_error error)
        × ((is_transient_grpc_error error ≡ false)
            ⊎ (length (authorize rxjs c remote payload s).waits ≡ c.max_retries))
  unfolding authorize
  authorize_failure d h =
      go (rxjs.retry c.max_retries (retry_delay c) wait source start).answer refl
    where
      go :
          (a : Answer RpcError AuthorizePaymentResponse)
          → (rxjs.retry c.max_retries (retry_delay c) wait source start).answer ≡ a
          → (error : RpcError) × (d ≡ map_rpc_error error)
            × ((is_transient_grpc_error error ≡ false)
                ⊎ (length (authorize rxjs c remote payload s).waits ≡ c.max_retries))
      go (value a) e = absurd (ground arith)
      go (failure error) e =
          let cause =
            Runs-failure c wait source 0 start
              (rxjs.retry c.max_retries (retry_delay c) wait source start) error (omega arith)
              (rxjs.retry-Runs c.max_retries (retry_delay c) wait source start) e in
          (error, ground arith, ground arith)
