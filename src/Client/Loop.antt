-- ===== src/Client/Loop.antt =====
-- A loop that obeys the law of `retry`, usual settings, and a transport on which nothing is lost.
use nest_js_ecomm_rd.Base.{
  ℕ, zero, suc, ◌+◌, ◌≤◌, ◌<◌, ◌≡◌, refl, Option, none, some, [], ◌∷◌, arith,
}
use nest_js_ecomm_rd.Grpc.{reply, raise}
use nest_js_ecomm_rd.Client.Failures.{object}
use nest_js_ecomm_rd.Client.Retry.{
  Answer, value, failure, Retried, Runs, emits, used_up, gives_up, again, Rxjs,
}
use nest_js_ecomm_rd.Client.Calls.{ms, RetrySettings}
use nest_js_ecomm_rd.Client.Outage.{Transport}

module _ {E A S W : Type 0} (count : ℕ) (delay : E → ℕ → Option W) (pass : W → S → S)
    (source : S → Answer E A × S) where
  abbrev pub after_wait : (S → Retried E A S W) → E → S → Option W → Retried E A S W
  after_wait next e s none = record { answer = failure e; state = s; waits = [] }
  after_wait next e s (some w) = record (next (pass w s)) { waits = w ∷ (next (pass w s)).waits }

  abbrev pub after_answer : ℕ → (S → Retried E A S W) → Answer E A × S → Retried E A S W
  after_answer used next (value a, s) = record { answer = value a; state = s; waits = [] }
  after_answer used next (failure e, s) = after_wait next e s (delay e (used + 1))

  unfoldable pub retry_from : ℕ → ℕ → S → Retried E A S W
  retry_from zero used s =
      let (answer, s') = source s in record { answer = answer; state = s'; waits = [] }
  retry_from (suc left) used s = after_answer used (retry_from left (used + 1)) (source s)

  after_wait-Runs :
      (used : ℕ) (next : S → Retried E A S W) (e : E) (s s' : S) (o : Option W)
      → used < count
      → source s ≡ (failure e, s')
      → delay e (used + 1) ≡ o
      → ((u : S) → Runs count delay pass source (used + 1) u (next u))
      → Runs count delay pass source used s (after_wait next e s' o)
  after_wait-Runs used next x s s' none k e d rest = gives_up e k d
  after_wait-Runs used next x s s' (some w) k e d rest = again e k d (rest (pass w s'))

  after_answer-Runs :
      (used : ℕ) (next : S → Retried E A S W) (s : S) (x : Answer E A × S)
      → used < count
      → source s ≡ x
      → ((u : S) → Runs count delay pass source (used + 1) u (next u))
      → Runs count delay pass source used s (after_answer used next x)
  after_answer-Runs used next s (value a, s') k e rest = emits e
  after_answer-Runs used next s (failure x, s') k e rest =
      after_wait-Runs used next x s s' (delay x (used + 1)) k e refl rest

  last-Runs :
      (used : ℕ) (s : S) (x : Answer E A × S)
      → count ≤ used
      → source s ≡ x
      → Runs count delay pass source used s (record { answer = x.0; state = x.1; waits = [] })
  last-Runs used s (value a, s') k e = emits e
  last-Runs used s (failure x, s') k e = used_up e k

  pub retry_from-Runs :
      (left used : ℕ) (s : S)
      → used + left ≡ count
      → Runs count delay pass source used s (retry_from left used s)
  unfolding retry_from
  retry_from-Runs zero used s h = last-Runs used s (source s) (omega arith) refl
  retry_from-Runs (suc left) used s h =
      after_answer-Runs used (retry_from left (used + 1)) s (source s) (omega arith) refl
        (λ u. retry_from-Runs left (used + 1) u (omega arith))

abbrev pub rxjs : {E A S W : Type 0} → Rxjs E A S W
rxjs = record {
  retry = λ count delay pass source s. retry_from count delay pass source count 0 s;
  retry-Runs =
      λ count delay pass source s. retry_from-Runs count delay pass source count 0 s (omega arith);
}

abbrev pub usual : RetrySettings
usual = record {
  timeout_ms = ms 1000;
  max_retries = 2;
  backoff_ms = ms 150;
  max_backoff_ms = ms 2000;
}

abbrev pub transport : Transport
transport = record {
  deliver = λ r. elim r [
    | reply a ↦ value (record { payment_id = a.payment_id; status = "PAYMENT_STATUS_AUTHORIZED" })
    | raise code message ↦ failure (object (some "Error") (some code) (some message))
  ];
  deliver-reply = λ r. (_, refl, refl);
  deliver-raise = λ code message. (_, refl, refl);
}
