-- ===== src/Payments/Idempotency.antt =====
-- Replays: a call that repeats an idempotency key gets the stored answer and changes nothing.
use nest_js_ecomm_rd.Base.{
  String, ◌≡◌, ◌≢◌, ◌⊎◌, inl, inr, Option, none, some, List, [], ◌∷◌, arith, eq_iff, Option-cases,
  Map,
}
use nest_js_ecomm_rd.Payments.Defs.{
  AuthorizePaymentInput, AuthorizePaymentResult, OperationInput, OperationOutcome, PaymentsService,
  recall, persist, authorize, capture, refund, should_fail_transient,
}
use nest_js_ecomm_rd.Payments.Calls.{Call, authorizes, captures, refunds, probes, step, run}

-- A store is written only where it holds nothing, so what it holds stays.
persist-kept :
    {V : Type 0} (m : Map V) (key : Option String) (k : String) (v w : V)
    → recall m key ≡ none
    → m k ≡ some w
    → persist m key v k ≡ some w
persist-kept m none k v w free held = held
persist-kept m (some j) k v w free held = ground (arith, eq_iff j k)

-- What one call stores, a later call with the same key recalls.
recall-of_held :
    {V : Type 0} (m : Map V) (key : Option String) (k : String) (v : V)
    → k ≢ ""
    → key ≡ some k
    → m k ≡ some v
    → recall m key ≡ some v
recall-of_held m key k v ne e held = ground (arith, eq_iff k "")

-- What a method leaves in its store: the answer under the key, unless the key was taken.
IsAnswered : {V : Type 0} → Map V → Option String → V → Map V → Type 0
IsAnswered m key v m' =
    ((recall m key ≡ some v) × (m' ≡ m)) ⊎ ((recall m key ≡ none) × (m' ≡ persist m key v))

IsAnswered-kept :
    {V : Type 0} (m m' : Map V) (key : Option String) (k : String) (v w : V)
    → IsAnswered m key v m'
    → m k ≡ some w
    → m' k ≡ some w
unfolding IsAnswered
IsAnswered-kept m m' key k v w (inl (_, same)) held = rw same held
IsAnswered-kept m m' key k v w (inr (free, same)) held =
    rw same (persist-kept m key k v w free held)

-- Under a key that counts, the answer is in the store afterwards.
IsAnswered-held :
    {V : Type 0} (m m' : Map V) (key : Option String) (k : String) (v : V)
    → k ≢ ""
    → key ≡ some k
    → IsAnswered m key v m'
    → m' k ≡ some v
unfolding IsAnswered
IsAnswered-held m m' key k v ne e (inl (known, same)) = rw same (ground (arith, eq_iff k ""))
IsAnswered-held m m' key k v ne e (inr (free, same)) =
    rw same (ground (arith, eq_iff k "", eq_iff k k))

authorize-IsAnswered :
    (id : String) (input : AuthorizePaymentInput) (s : PaymentsService)
    → IsAnswered s.authorize_idempotency_results input.idempotency_key
        (authorize id input s).0
        (authorize id input s).1.authorize_idempotency_results
unfolding IsAnswered authorize
authorize-IsAnswered id input s =
    elim (Option-cases (recall s.authorize_idempotency_results input.idempotency_key)) [
      | inl free ↦ inr (free, ground arith)
      | inr (v, known) ↦ inl (ground arith, ground arith)
    ]

capture-IsAnswered :
    (input : OperationInput) (s : PaymentsService)
    → IsAnswered s.capture_idempotency_results input.idempotency_key
        (capture input s).0
        (capture input s).1.capture_idempotency_results
unfolding IsAnswered capture
capture-IsAnswered input s =
    elim (Option-cases (recall s.capture_idempotency_results input.idempotency_key)) [
      | inl free ↦ inr (free, ground arith)
      | inr (v, known) ↦ inl (ground arith, ground arith)
    ]

refund-IsAnswered :
    (input : OperationInput) (s : PaymentsService)
    → IsAnswered s.refund_idempotency_results input.idempotency_key
        (refund input s).0
        (refund input s).1.refund_idempotency_results
unfolding IsAnswered refund
refund-IsAnswered input s =
    elim (Option-cases (recall s.refund_idempotency_results input.idempotency_key)) [
      | inl free ↦ inr (free, ground arith)
      | inr (v, known) ↦ inl (ground arith, ground arith)
    ]

pub authorize_recalled :
    (id : String) (input : AuthorizePaymentInput) (s : PaymentsService) (r : AuthorizePaymentResult)
    → recall s.authorize_idempotency_results input.idempotency_key ≡ some r
    → authorize id input s ≡ (r, s)
unfolding authorize
authorize_recalled id input s r known = ground arith

pub capture_recalled :
    (input : OperationInput) (s : PaymentsService) (o : OperationOutcome)
    → recall s.capture_idempotency_results input.idempotency_key ≡ some o
    → capture input s ≡ (o, s)
unfolding capture
capture_recalled input s o known = ground arith

pub refund_recalled :
    (input : OperationInput) (s : PaymentsService) (o : OperationOutcome)
    → recall s.refund_idempotency_results input.idempotency_key ≡ some o
    → refund input s ≡ (o, s)
unfolding refund
refund_recalled input s o known = ground arith

module _ (k : String) where
  step-authorize_kept :
      (s : PaymentsService) (c : Call) (r : AuthorizePaymentResult)
      → s.authorize_idempotency_results k ≡ some r
      → (step s c).authorize_idempotency_results k ≡ some r
  unfolding step capture refund should_fail_transient
  step-authorize_kept s (authorizes id input) r h =
      IsAnswered-kept _ _ input.idempotency_key k _ r (authorize-IsAnswered id input s) h
  step-authorize_kept s (captures input) r h = ground arith
  step-authorize_kept s (refunds input) r h = ground arith
  step-authorize_kept s (probes order_id flag) r h = ground arith

  step-capture_kept :
      (s : PaymentsService) (c : Call) (o : OperationOutcome)
      → s.capture_idempotency_results k ≡ some o
      → (step s c).capture_idempotency_results k ≡ some o
  unfolding step authorize refund should_fail_transient
  step-capture_kept s (authorizes id input) o h = ground arith
  step-capture_kept s (captures input) o h =
      IsAnswered-kept _ _ input.idempotency_key k _ o (capture-IsAnswered input s) h
  step-capture_kept s (refunds input) o h = ground arith
  step-capture_kept s (probes order_id flag) o h = ground arith

  step-refund_kept :
      (s : PaymentsService) (c : Call) (o : OperationOutcome)
      → s.refund_idempotency_results k ≡ some o
      → (step s c).refund_idempotency_results k ≡ some o
  unfolding step authorize capture should_fail_transient
  step-refund_kept s (authorizes id input) o h = ground arith
  step-refund_kept s (captures input) o h = ground arith
  step-refund_kept s (refunds input) o h =
      IsAnswered-kept _ _ input.idempotency_key k _ o (refund-IsAnswered input s) h
  step-refund_kept s (probes order_id flag) o h = ground arith

  run-authorize_kept :
      (s : PaymentsService) (cs : List Call) (r : AuthorizePaymentResult)
      → s.authorize_idempotency_results k ≡ some r
      → (run s cs).authorize_idempotency_results k ≡ some r
  unfolding run
  run-authorize_kept s [] r h = h
  run-authorize_kept s (c ∷ cs) r h =
      run-authorize_kept (step s c) cs r (step-authorize_kept s c r h)

  run-capture_kept :
      (s : PaymentsService) (cs : List Call) (o : OperationOutcome)
      → s.capture_idempotency_results k ≡ some o
      → (run s cs).capture_idempotency_results k ≡ some o
  unfolding run
  run-capture_kept s [] o h = h
  run-capture_kept s (c ∷ cs) o h = run-capture_kept (step s c) cs o (step-capture_kept s c o h)

  run-refund_kept :
      (s : PaymentsService) (cs : List Call) (o : OperationOutcome)
      → s.refund_idempotency_results k ≡ some o
      → (run s cs).refund_idempotency_results k ≡ some o
  unfolding run
  run-refund_kept s [] o h = h
  run-refund_kept s (c ∷ cs) o h = run-refund_kept (step s c) cs o (step-refund_kept s c o h)

-- A call of `authorize` with a non-empty idempotency key, and later calls of any method: repeating
-- the key, with whatever input and identifier, answers as the first call did and changes nothing.
pub authorize_replay :
    (id later_id : String) (input later : AuthorizePaymentInput) (s : PaymentsService) (k : String)
    (cs : List Call)
    → k ≢ ""
    → input.idempotency_key ≡ some k
    → later.idempotency_key ≡ some k
    → authorize later_id later (run (authorize id input s).1 cs)
      ≡ ((authorize id input s).0, run (authorize id input s).1 cs)
authorize_replay id later_id input later s k cs ne e e' =
    let held =
      IsAnswered-held _ _ input.idempotency_key k _ ne e (authorize-IsAnswered id input s) in
    let kept = run-authorize_kept k _ cs _ held in
    let known = recall-of_held _ later.idempotency_key k _ ne e' kept in
    authorize_recalled later_id later _ _ known

capture_replay :
    (input later : OperationInput) (s : PaymentsService) (k : String) (cs : List Call)
    → k ≢ ""
    → input.idempotency_key ≡ some k
    → later.idempotency_key ≡ some k
    → capture later (run (capture input s).1 cs) ≡ ((capture input s).0, run (capture input s).1 cs)
capture_replay input later s k cs ne e e' =
    let held = IsAnswered-held _ _ input.idempotency_key k _ ne e (capture-IsAnswered input s) in
    let known = recall-of_held _ later.idempotency_key k _ ne e' (run-capture_kept k _ cs _ held) in
    capture_recalled later _ _ known

refund_replay :
    (input later : OperationInput) (s : PaymentsService) (k : String) (cs : List Call)
    → k ≢ ""
    → input.idempotency_key ≡ some k
    → later.idempotency_key ≡ some k
    → refund later (run (refund input s).1 cs) ≡ ((refund input s).0, run (refund input s).1 cs)
refund_replay input later s k cs ne e e' =
    let held = IsAnswered-held _ _ input.idempotency_key k _ ne e (refund-IsAnswered input s) in
    let known = recall-of_held _ later.idempotency_key k _ ne e' (run-refund_kept k _ cs _ held) in
    refund_recalled later _ _ known

-- A call of `capture` or of `refund` with a non-empty idempotency key, and later calls of any method:
-- repeating the key with the same method, for whatever payment, answers as the first call did, errors
-- included, and changes nothing.
operation_replay :
    (input later : OperationInput) (s : PaymentsService) (k : String) (cs : List Call)
    → k ≢ ""
    → input.idempotency_key ≡ some k
    → later.idempotency_key ≡ some k
    → (capture later (run (capture input s).1 cs)
        ≡ ((capture input s).0, run (capture input s).1 cs))
      × (refund later (run (refund input s).1 cs) ≡ ((refund input s).0, run (refund input s).1 cs))
operation_replay input later s k cs ne e e' =
    (capture_replay input later s k cs ne e e', refund_replay input later s k cs ne e e')
