-- ===== src/Payments/Refinement.antt =====
-- The service with its idempotency stores does what the plain service does with the first calls.
use nest_js_ecomm_rd.Base.{
  Option-cases, String, ◌≡◌, refl, sym, ap, ◌∙◌, inl, inr, Bool, false, Option, none, some, List,
  [], ◌∷◌, truthy, Map, StringSet, add, set, is_some, arith, str_eq, Bool-cases,
}
use nest_js_ecomm_rd.Payments.Defs.{
  AuthorizePaymentInput, OperationInput, PaymentsService, initial, recall, persist, authorize,
  capture, refund, should_fail_transient,
}
use nest_js_ecomm_rd.Payments.Calls.{Call, authorizes, captures, refunds, probes, step, run}
use nest_js_ecomm_rd.Payments.Idempotency.{authorize_recalled, capture_recalled, refund_recalled}
use nest_js_ecomm_rd.Payments.Plain.{plain, plain_run, Keys, no_keys, sent, note, first_calls}

-- The stores hold an answer for just these keys.
record IsKeyed (keys : Keys) (s : PaymentsService) : Type 0 where
  authorize : (k : String) → keys.authorize k ≡ is_some (s.authorize_idempotency_results k)
  capture : (k : String) → keys.capture k ≡ is_some (s.capture_idempotency_results k)
  refund : (k : String) → keys.refund k ≡ is_some (s.refund_idempotency_results k)

module _ {V : Type 0} where
  sent-recall :
      (key : Option String) (keys : StringSet) (store : Map V)
      → ((k : String) → keys k ≡ is_some (store k))
      → sent key keys ≡ is_some (recall store key)
  sent-recall key keys store h = go (truthy key)
    where
      go :
          (o : Option String)
          → (elim o [ none ↦ false | some k ↦ keys k ])
            ≡ is_some (elim o [ none ↦ none | some k ↦ store k ])
      go none = refl
      go (some k) = h k

  note-persist :
      (key : Option String) (keys : StringSet) (store : Map V) (v : V)
      → ((k : String) → keys k ≡ is_some (store k))
      → (k : String) → note key keys k ≡ is_some (persist store key v k)
  note-persist key keys store v h j = go (truthy key)
    where
      noted : Option String → StringSet
      noted none = keys
      noted (some k) = add k keys

      stored : Option String → Map V
      stored none = store
      stored (some k) = set k v store

      go : (o : Option String) → noted o j ≡ is_some (stored o j)
      go none = h j
      go (some k) = elim (Bool-cases (str_eq k j)) [
        | inl hit ↦ rw hit refl
        | inr miss ↦ rw miss (h j)
      ]

-- One call whose key is new.
record IsFirst (c : Call) (keys' : Keys) (s : PaymentsService) : Type 0 where
  payments : (step s c).payments_by_id ≡ plain s.payments_by_id c
  keyed : IsKeyed keys' (step s c)

authorize-IsFirst :
    (id : String) (input : AuthorizePaymentInput) (keys : Keys) (s : PaymentsService)
    → IsKeyed keys s
    → recall s.authorize_idempotency_results input.idempotency_key ≡ none
    → IsFirst
        (authorizes id input)
        (record keys { authorize = note input.idempotency_key keys.authorize })
        s
unfolding step authorize
authorize-IsFirst id input keys s h new = record {
  payments = ground arith;
  keyed = record {
    authorize = λ k.
        note-persist input.idempotency_key keys.authorize s.authorize_idempotency_results
          (authorize id input s).0 h.authorize k
        ∙ ground (arith, new);
    capture = λ k. h.capture k ∙ ground (arith, new);
    refund = λ k. h.refund k ∙ ground (arith, new);
  };
}

capture-IsFirst :
    (input : OperationInput) (keys : Keys) (s : PaymentsService)
    → IsKeyed keys s
    → recall s.capture_idempotency_results input.idempotency_key ≡ none
    → IsFirst (captures input) (record keys { capture = note input.idempotency_key keys.capture }) s
unfolding step capture
capture-IsFirst input keys s h new = record {
  payments = ground arith;
  keyed = record {
    authorize = λ k. h.authorize k ∙ ground (arith, new);
    capture = λ k.
        note-persist input.idempotency_key keys.capture s.capture_idempotency_results
          (capture input s).0 h.capture k
        ∙ ground (arith, new);
    refund = λ k. h.refund k ∙ ground (arith, new);
  };
}

refund-IsFirst :
    (input : OperationInput) (keys : Keys) (s : PaymentsService)
    → IsKeyed keys s
    → recall s.refund_idempotency_results input.idempotency_key ≡ none
    → IsFirst (refunds input) (record keys { refund = note input.idempotency_key keys.refund }) s
unfolding step refund
refund-IsFirst input keys s h new = record {
  payments = ground arith;
  keyed = record {
    authorize = λ k. h.authorize k ∙ ground (arith, new);
    capture = λ k. h.capture k ∙ ground (arith, new);
    refund = λ k.
        note-persist input.idempotency_key keys.refund s.refund_idempotency_results
          (refund input s).0 h.refund k
        ∙ ground (arith, new);
  };
}

-- A repetition is struck out, and changes nothing.
after_repeated :
    (keys : Keys) (s : PaymentsService) (c : Call) (cs : List Call)
    → step s c ≡ s
    → first_calls keys (c ∷ cs) ≡ first_calls keys cs
    → (run s cs).payments_by_id ≡ plain_run s.payments_by_id (first_calls keys cs)
    → (run s (c ∷ cs)).payments_by_id ≡ plain_run s.payments_by_id (first_calls keys (c ∷ cs))
unfolding run
after_repeated keys s c cs same struck rest =
    ap (λ u. (run u cs).payments_by_id) same ∙ rest ∙ ap (plain_run s.payments_by_id) (sym struck)

-- A first call stays, and does what the plain one does.
after_first :
    (keys keys' : Keys) (s : PaymentsService) (c : Call) (cs : List Call)
    → (step s c).payments_by_id ≡ plain s.payments_by_id c
    → first_calls keys (c ∷ cs) ≡ c ∷ first_calls keys' cs
    → (run (step s c) cs).payments_by_id
      ≡ plain_run (step s c).payments_by_id (first_calls keys' cs)
    → (run s (c ∷ cs)).payments_by_id ≡ plain_run s.payments_by_id (first_calls keys (c ∷ cs))
unfolding run
after_first keys keys' s c cs payments kept rest =
    rest
    ∙ ap (λ m. plain_run m (first_calls keys' cs)) payments
    ∙ ap (plain_run s.payments_by_id) (sym kept)

-- The request for a failure touches the gate alone.
probes_payments :
    (order_id : String) (flag : Option Bool) (s : PaymentsService)
    → (step s (probes order_id flag)).payments_by_id ≡ s.payments_by_id
unfolding step should_fail_transient
probes_payments order_id flag s = ground arith

probes-IsKeyed :
    (order_id : String) (flag : Option Bool) (keys : Keys) (s : PaymentsService)
    → IsKeyed keys s
    → IsKeyed keys (step s (probes order_id flag))
unfolding step should_fail_transient
probes-IsKeyed order_id flag keys s h = record {
  authorize = λ k. h.authorize k ∙ ground arith;
  capture = λ k. h.capture k ∙ ground arith;
  refund = λ k. h.refund k ∙ ground arith;
}

run-plain :
    (cs : List Call) (keys : Keys) (s : PaymentsService)
    → IsKeyed keys s
    → (run s cs).payments_by_id ≡ plain_run s.payments_by_id (first_calls keys cs)
unfolding run step
run-plain [] keys s h = refl
run-plain (authorizes id input ∷ cs) keys s h =
    let seen =
      sent-recall input.idempotency_key keys.authorize s.authorize_idempotency_results
        h.authorize in
    elim (Option-cases (recall s.authorize_idempotency_results input.idempotency_key)) [
      | inr (r, known) ↦
          after_repeated keys s (authorizes id input) cs
            (ap (λ x. x.1) (authorize_recalled id input s r known)) (ground (arith, seen, known))
            (run-plain cs keys s h)
      | inl new ↦
          let first = authorize-IsFirst id input keys s h new in
          after_first keys _ s (authorizes id input) cs first.payments (ground (arith, seen, new))
            (run-plain cs _ (step s (authorizes id input)) first.keyed)
    ]
run-plain (captures input ∷ cs) keys s h =
    let seen =
      sent-recall input.idempotency_key keys.capture s.capture_idempotency_results h.capture in
    elim (Option-cases (recall s.capture_idempotency_results input.idempotency_key)) [
      | inr (r, known) ↦
          after_repeated keys s (captures input) cs
            (ap (λ x. x.1) (capture_recalled input s r known)) (ground (arith, seen, known))
            (run-plain cs keys s h)
      | inl new ↦
          let first = capture-IsFirst input keys s h new in
          after_first keys _ s (captures input) cs first.payments (ground (arith, seen, new))
            (run-plain cs _ (step s (captures input)) first.keyed)
    ]
run-plain (refunds input ∷ cs) keys s h =
    let seen =
      sent-recall input.idempotency_key keys.refund s.refund_idempotency_results h.refund in
    elim (Option-cases (recall s.refund_idempotency_results input.idempotency_key)) [
      | inr (r, known) ↦
          after_repeated keys s (refunds input) cs (ap (λ x. x.1) (refund_recalled input s r known))
            (ground (arith, seen, known)) (run-plain cs keys s h)
      | inl new ↦
          let first = refund-IsFirst input keys s h new in
          after_first keys _ s (refunds input) cs first.payments (ground (arith, seen, new))
            (run-plain cs _ (step s (refunds input)) first.keyed)
    ]
run-plain (probes order_id flag ∷ cs) keys s h =
    run-plain cs keys (step s (probes order_id flag)) (probes-IsKeyed order_id flag keys s h)
    ∙ ap (λ m. plain_run m (first_calls keys cs)) (probes_payments order_id flag s)

-- The payments of a new service, after any calls, are those of the service without idempotency keys after
-- the same calls with every repetition of a key struck out.
pub run-first_calls :
    (cs : List Call)
    → (run initial cs).payments_by_id ≡ plain_run initial.payments_by_id (first_calls no_keys cs)
run-first_calls cs =
    run-plain cs no_keys initial
      (record { authorize = λ k. refl; capture = λ k. refl; refund = λ k. refl })
