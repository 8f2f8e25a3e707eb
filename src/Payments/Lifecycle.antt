-- ===== src/Payments/Lifecycle.antt =====
-- The life of a payment: AUTHORIZED, then CAPTURED or not, then REFUNDED, over any calls.
use nest_js_ecomm_rd.Base.{
  String, ◌≡◌, refl, subst, ◌⊎◌, inl, inr, none, some, List, [], ◌∷◌, arith, eq_iff, Option-cases,
  Map, set, Bool-cases, str_eq, sym, ◌∙◌,
}
use nest_js_ecomm_rd.Payments.Defs.{
  PaymentStatus, authorized, captured, refunded, PaymentRecord, AuthorizePaymentInput,
  OperationInput, PaymentsService, initial, recall, new_payment, authorize, capture_found, capture,
  refund_found, refund, should_fail_transient,
}
use nest_js_ecomm_rd.Payments.Calls.{
  Call, authorizes, captures, refunds, probes, step, run, new_id, IsFresh, AllFresh,
}

-- The status changes that the service makes.
pub data Moves : PaymentStatus → PaymentStatus → Type 0 where
  capturing : {p q : PaymentStatus} → p ≡ authorized → q ≡ captured → Moves p q
  refunding : {p q : PaymentStatus} → (p ≡ authorized) ⊎ (p ≡ captured) → q ≡ refunded → Moves p q

-- What one call does to the payments: nothing, one status change, or one new payment.
pub data Change (c : Call) (m m' : Map PaymentRecord) : Type 0 where
  kept : m' ≡ m → Change c m m'
  moved :
      (id : String) (p : PaymentRecord) (status : PaymentStatus)
      → m id ≡ some p
      → Moves p.status status
      → m' ≡ set id (record p { status = status }) m
      → Change c m m'
  opened :
      (id : String) (p : PaymentRecord)
      → new_id c ≡ some id
      → p.payment_id ≡ id
      → p.status ≡ authorized
      → m' ≡ set id p m
      → Change c m m'

authorize-Change :
    (id : String) (input : AuthorizePaymentInput) (s : PaymentsService)
    → Change (authorizes id input) s.payments_by_id (authorize id input s).1.payments_by_id
unfolding authorize
authorize-Change id input s =
    elim (Option-cases (recall s.authorize_idempotency_results input.idempotency_key)) [
      | inr (r, known) ↦ kept (ground arith)
      | inl free ↦ opened id (new_payment id input) refl refl refl (ground arith)
    ]

module _ (c : Call) (input : OperationInput) (s : PaymentsService) where
  capture_found-Change :
      (p : PaymentRecord) (status : PaymentStatus)
      → p.status ≡ status
      → s.payments_by_id input.payment_id ≡ some p
      → Change c s.payments_by_id (capture_found input p s).1.payments_by_id
  unfolding capture_found
  capture_found-Change p authorized e found =
      moved input.payment_id p captured found (capturing e refl) (ground arith)
  capture_found-Change p _ e found = kept (ground arith)

  refund_found-Change :
      (p : PaymentRecord) (status : PaymentStatus)
      → p.status ≡ status
      → s.payments_by_id input.payment_id ≡ some p
      → Change c s.payments_by_id (refund_found input p s).1.payments_by_id
  unfolding refund_found
  refund_found-Change p authorized e found =
      moved input.payment_id p refunded found (refunding (inl e) refl) (ground arith)
  refund_found-Change p captured e found =
      moved input.payment_id p refunded found (refunding (inr e) refl) (ground arith)
  refund_found-Change p _ e found = kept (ground arith)

  capture-Change : Change c s.payments_by_id (capture input s).1.payments_by_id
  unfolding capture
  capture-Change =
      elim (Option-cases (recall s.capture_idempotency_results input.idempotency_key)) [
        | inr (o, known) ↦ kept (ground arith)
        | inl free ↦ elim (Option-cases (s.payments_by_id input.payment_id)) [
          | inl missing ↦ kept (ground arith)
          | inr (p, found) ↦ rw (free, found, capture) (capture_found-Change p p.status refl found)
        ]
      ]

  refund-Change : Change c s.payments_by_id (refund input s).1.payments_by_id
  unfolding refund
  refund-Change = elim (Option-cases (recall s.refund_idempotency_results input.idempotency_key)) [
    | inr (o, known) ↦ kept (ground arith)
    | inl free ↦ elim (Option-cases (s.payments_by_id input.payment_id)) [
      | inl missing ↦ kept (ground arith)
      | inr (p, found) ↦ rw (free, found, refund) (refund_found-Change p p.status refl found)
    ]
  ]

step-Change : (s : PaymentsService) (c : Call) → Change c s.payments_by_id (step s c).payments_by_id
unfolding step should_fail_transient
step-Change s (authorizes id input) = authorize-Change id input s
step-Change s (captures input) = capture-Change (captures input) input s
step-Change s (refunds input) = refund-Change (refunds input) input s
step-Change s (probes order_id flag) = kept (ground arith)

-- A payment of the service has one of three statuses.
abbrev pub IsLive : PaymentStatus → Type 0
IsLive status = (status ≡ authorized) ⊎ (status ≡ captured) ⊎ (status ≡ refunded)

-- Each entry is filed under its own identifier, with a live status.
abbrev pub IsFiled : Map PaymentRecord → Type 0
IsFiled m =
    (id : String) (p : PaymentRecord) → m id ≡ some p → (p.payment_id ≡ id) × IsLive p.status

Moves-IsLive : {p q : PaymentStatus} → Moves p q → IsLive q
Moves-IsLive (capturing _ e) = inr (inl e)
Moves-IsLive (refunding _ e) = inr (inr e)

Change-IsFiled :
    {c : Call} {m m' : Map PaymentRecord}
    → Change c m m'
    → IsFiled m
    → (j : String) (q : PaymentRecord) → m' j ≡ some q
    → (q.payment_id ≡ j) × IsLive q.status
Change-IsFiled (kept same) v j q e = v j q (subst (λ n. n j ≡ some q) same e)
Change-IsFiled {m} (moved id p status found move same) v j q e =
    let live = Moves-IsLive move in
    let e' = subst (λ n. n j ≡ some q) same e in ground (arith, v id p found, v j q, eq_iff id j)
Change-IsFiled {m} (opened id p _ own live same) v j q e =
    let e' = subst (λ n. n j ≡ some q) same e in ground (arith, v j q, eq_iff id j)

run-IsFiled_of :
    (s : PaymentsService) (cs : List Call)
    → IsFiled s.payments_by_id
    → IsFiled (run s cs).payments_by_id
unfolding run
run-IsFiled_of s [] v = v
run-IsFiled_of s (c ∷ cs) v = run-IsFiled_of (step s c) cs (Change-IsFiled (step-Change s c) v)

-- After any calls on a new service, every payment is filed under its own identifier, and its status
-- is AUTHORIZED, CAPTURED or REFUNDED: never UNSPECIFIED or FAILED.
run-IsFiled : (cs : List Call) → IsFiled (run initial cs).payments_by_id
run-IsFiled cs = run-IsFiled_of initial cs (λ id p e. cc)

pub data Reaches : PaymentStatus → PaymentStatus → Type 0 where
  same_status : {p : PaymentStatus} → Reaches p p
  by_move : {p q r : PaymentStatus} → Moves p q → Reaches q r → Reaches p r

Reaches-trans : {p q r : PaymentStatus} → Reaches p q → Reaches q r → Reaches p r
Reaches-trans same_status l = l
Reaches-trans (by_move m k) l = by_move m (Reaches-trans k l)

-- `q` is the same payment as `p`, later in its life.
pub record IsLater (p q : PaymentRecord) : Type 0 where
  pub payment_id : q.payment_id ≡ p.payment_id
  pub order_id : q.order_id ≡ p.order_id
  pub amount : q.amount ≡ p.amount
  pub currency : q.currency ≡ p.currency
  pub status : Reaches p.status q.status

IsLater-refl : (p : PaymentRecord) → IsLater p p
IsLater-refl p = record {
  payment_id = refl;
  order_id = refl;
  amount = refl;
  currency = refl;
  status = same_status;
}

IsLater-trans : {p q r : PaymentRecord} → IsLater p q → IsLater q r → IsLater p r
IsLater-trans l k = record {
  payment_id = k.payment_id ∙ l.payment_id;
  order_id = k.order_id ∙ l.order_id;
  amount = k.amount ∙ l.amount;
  currency = k.currency ∙ l.currency;
  status = Reaches-trans l.status k.status;
}

abbrev HasLater : PaymentRecord → String → Map PaymentRecord → Type 0
HasLater p id m = (q : PaymentRecord) × (m id ≡ some q) × IsLater p q

Change-HasLater :
    {c : Call} {m m' : Map PaymentRecord}
    → Change c m m'
    → ((id : String) → new_id c ≡ some id → m id ≡ none)
    → (j : String) (p : PaymentRecord) → m j ≡ some p
    → HasLater p j m'
Change-HasLater (kept same) fresh j p e =
    (p, subst (λ n. n j ≡ some p) (sym same) e, IsLater-refl p)
Change-HasLater {m} (moved id q status found move same) fresh j p e =
    elim (Bool-cases (str_eq id j)) [
      | inl hit ↦
          let which : id ≡ j = (eq_iff id j).0 hit in
          let one : q ≡ p = ground (arith, eq_iff id j) in
          (
            record q { status = status },
            rw same (ground arith),
            subst (λ r. IsLater r (record q { status = status })) one
                (record {
                  payment_id = refl;
                  order_id = refl;
                  amount = refl;
                  currency = refl;
                  status = by_move move same_status;
                }),
          )
      | inr miss ↦ (p, rw same (ground arith), IsLater-refl p)
    ]
Change-HasLater {m} (opened id q draws own live same) fresh j p e =
    let new : m id ≡ none = fresh id draws in
    (p, rw same (ground (arith, eq_iff id j)), IsLater-refl p)

step-HasLater :
    (s : PaymentsService) (c : Call) (id : String) (p : PaymentRecord)
    → IsFresh s c
    → s.payments_by_id id ≡ some p
    → HasLater p id (step s c).payments_by_id
step-HasLater s (authorizes new input) id p fresh e =
    Change-HasLater (step-Change s (authorizes new input))
      (λ i same. subst (λ k. s.payments_by_id k ≡ none) (cc) fresh) id p e
step-HasLater s c id p fresh e = Change-HasLater (step-Change s c) (λ i same. cc) id p e

-- Over any calls whose new identifiers are not in use, a payment keeps its identifier, order, amount
-- and currency, and its status only moves AUTHORIZED to CAPTURED, or either of them to REFUNDED.
pub run-IsLater :
    (s : PaymentsService) (cs : List Call) (id : String) (p : PaymentRecord)
    → AllFresh s cs
    → s.payments_by_id id ≡ some p
    → (q : PaymentRecord) × ((run s cs).payments_by_id id ≡ some q) × IsLater p q
unfolding run
run-IsLater s [] id p fresh e = (p, e, IsLater-refl p)
run-IsLater s (c ∷ cs) id p (here, later) e =
    let (q, found, l) = step-HasLater s c id p here e in
    let (r, kept_on, k) = run-IsLater (step s c) cs id q later found in
    (r, kept_on, IsLater-trans l k)
