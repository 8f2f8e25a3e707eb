-- ===== src/Payments/Outcomes.antt =====
-- What `capture`, `refund` and `getStatus` answer, and that a refund is final.
use nest_js_ecomm_rd.Base.{
  String, ◌≡◌, ◌≢◌, refl, sym, subst, ◌⊎◌, inl, inr, ◌↔◌, Bool, true, false, none, some, List,
  arith, eq_iff, Option-cases,
}
use nest_js_ecomm_rd.Payments.Defs.{
  PaymentStatus, authorized, captured, refunded, PaymentRecord, OperationInput, OperationOutcome,
  ok, error, failed_precondition, GetPaymentStatusResult, PaymentsService, recall, capture, refund,
  get_status,
}
use nest_js_ecomm_rd.Payments.Calls.{Call, run, AllFresh}
use nest_js_ecomm_rd.Payments.Lifecycle.{
  IsLive, capturing, refunding, Reaches, same_status, by_move, run-IsLater,
}

Reaches-refunded : {p q : PaymentStatus} → Reaches p q → p ≡ refunded → q ≡ refunded
Reaches-refunded same_status e = e
Reaches-refunded (by_move (capturing a _) _) e = cc
Reaches-refunded (by_move (refunding (inl a) _) _) e = cc
Reaches-refunded (by_move (refunding (inr a) _) _) e = cc

-- A refund of a live payment, asked for the first time under its key, leaves it refunded.
refund-refunded :
    (input : OperationInput) (s : PaymentsService) (p : PaymentRecord)
    → s.payments_by_id input.payment_id ≡ some p
    → IsLive p.status
    → recall s.refund_idempotency_results input.idempotency_key ≡ none
    → (q : PaymentRecord) × ((refund input s).1.payments_by_id input.payment_id ≡ some q)
      × (q.status ≡ refunded)
unfolding refund
refund-refunded input s p found live free =
    (record p { status = refunded }, ground (arith, eq_iff input.payment_id input.payment_id), refl)

capture_of_refunded :
    (input : OperationInput) (s : PaymentsService) (p : PaymentRecord)
    → s.payments_by_id input.payment_id ≡ some p
    → p.status ≡ refunded
    → recall s.capture_idempotency_results input.idempotency_key ≡ none
    → (capture input s).0 ≡ error failed_precondition "cannot capture refunded payment"
unfolding capture
capture_of_refunded input s p found e free = ground arith

-- A refund is final: after a refund of a live payment (with no answer stored under its key), and any
-- calls with fresh identifiers, the status reads REFUNDED, and a capture of the payment with no
-- answer stored under its key is refused with FAILED_PRECONDITION.
pub refund_final :
    (s : PaymentsService) (input later : OperationInput) (p : PaymentRecord) (cs : List Call)
    → s.payments_by_id input.payment_id ≡ some p
    → IsLive p.status
    → recall s.refund_idempotency_results input.idempotency_key ≡ none
    → AllFresh (refund input s).1 cs
    → later.payment_id ≡ input.payment_id
    → recall (run (refund input s).1 cs).capture_idempotency_results later.idempotency_key ≡ none
    → ((r : GetPaymentStatusResult) × (get_status input.payment_id (run (refund input s).1 cs)
          ≡ some r)
        × (r.status ≡ refunded))
      × ((capture later (run (refund input s).1 cs)).0
          ≡ error failed_precondition "cannot capture refunded payment")
unfolding get_status
refund_final s input later p cs found live free fresh e free' =
    let (q, found', is_refunded) = refund-refunded input s p found live free in
    let (r, final, l) = run-IsLater (refund input s).1 cs input.payment_id q fresh found' in
    let still = Reaches-refunded l.status is_refunded in
    let at_later =
      subst (λ i. (run (refund input s).1 cs).payments_by_id i ≡ some r) (sym e) final in
    (
      (record { payment_id = r.payment_id; status = r.status }, ground (arith, final), still),
      capture_of_refunded later _ r at_later still free',
    )

abbrev pub is_ok : OperationOutcome → Bool
is_ok (ok response) = true
is_ok (error code message) = false

-- What one operation did, when it had to be carried out: `may` says in which statuses it succeeds,
-- `target` is the status that it leaves then.
pub record IsCarriedOut (may : PaymentStatus → Type 0) (target : PaymentStatus) (id : String)
    (s s' : PaymentsService) (outcome : OperationOutcome) : Type 0 where
  pub succeeds :
      (is_ok outcome ≡ true) ↔ ((p : PaymentRecord) × (s.payments_by_id id ≡ some p) × may p.status)
  pub reaches :
      is_ok outcome ≡ true
      → (p : PaymentRecord) × (s'.payments_by_id id ≡ some p) × (p.status ≡ target)
  pub fails : is_ok outcome ≡ false → s'.payments_by_id id ≡ s.payments_by_id id
  pub others : (j : String) → j ≢ id → s'.payments_by_id j ≡ s.payments_by_id j

abbrev pub MayCapture : PaymentStatus → Type 0
MayCapture status = (status ≡ authorized) ⊎ (status ≡ captured)

capture-IsCarriedOut :
    (input : OperationInput) (s : PaymentsService)
    → recall s.capture_idempotency_results input.idempotency_key ≡ none
    → IsCarriedOut MayCapture captured input.payment_id s (capture input s).1 (capture input s).0
unfolding capture
capture-IsCarriedOut input s free = elim (Option-cases (s.payments_by_id input.payment_id)) [
  | inl missing ↦ record {
    succeeds = (λ e. absurd (ground arith), λ (p, found, live). absurd (cc));
    reaches = λ e. absurd (ground arith);
    fails = λ e. ground arith;
    others = λ j ne. ground arith;
  }
  | inr (p, found) ↦ record {
    succeeds = (λ e. (p, found, ground arith), λ w. (let live = w.2 in ground (arith, w.1)));
    reaches = λ e. (
      record p { status = captured },
      ground (arith, eq_iff input.payment_id input.payment_id),
      refl,
    );
    fails = λ e. ground (arith);
    others = λ j ne. ground (arith, eq_iff input.payment_id j);
  }
]

abbrev pub MayRefund : PaymentStatus → Type 0
MayRefund status = (status ≡ authorized) ⊎ (status ≡ captured) ⊎ (status ≡ refunded)

refund-IsCarriedOut :
    (input : OperationInput) (s : PaymentsService)
    → recall s.refund_idempotency_results input.idempotency_key ≡ none
    → IsCarriedOut MayRefund refunded input.payment_id s (refund input s).1 (refund input s).0
unfolding refund
refund-IsCarriedOut input s free = elim (Option-cases (s.payments_by_id input.payment_id)) [
  | inl missing ↦ record {
    succeeds = (λ e. absurd (ground arith), λ (p, found, live). absurd (cc));
    reaches = λ e. absurd (ground arith);
    fails = λ e. ground arith;
    others = λ j ne. ground arith;
  }
  | inr (p, found) ↦ record {
    succeeds = (λ e. (p, found, ground arith), λ w. (let live = w.2 in ground (arith, w.1)));
    reaches = λ e. (
      record p { status = refunded },
      ground (arith, eq_iff input.payment_id input.payment_id),
      refl,
    );
    fails = λ e. ground arith;
    others = λ j ne. ground (arith, eq_iff input.payment_id j);
  }
]

-- With no answer stored under the key, `capture` answers `ok` exactly when the payment is in the service and
-- is AUTHORIZED or CAPTURED, which is CAPTURED afterwards; `refund` exactly when it is AUTHORIZED, CAPTURED or
-- REFUNDED, which is REFUNDED afterwards. Otherwise it stays as it was, and no other payment changes.
pub operation-IsCarriedOut :
    (input : OperationInput) (s : PaymentsService)
    → recall s.capture_idempotency_results input.idempotency_key ≡ none
    → recall s.refund_idempotency_results input.idempotency_key ≡ none
    → IsCarriedOut MayCapture captured input.payment_id s (capture input s).1 (capture input s).0
      × IsCarriedOut MayRefund refunded input.payment_id s (refund input s).1 (refund input s).0
operation-IsCarriedOut input s free free' =
    (capture-IsCarriedOut input s free, refund-IsCarriedOut input s free')
