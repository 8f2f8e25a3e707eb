-- ===== src/Payments/Tests.antt =====
-- The payment service on concrete calls.
use nest_js_ecomm_rd.Base.{
  String, ◌≡◌, ◌↔◌, refl, inl, true, false, some, [], ◌∷◌, Number, decimal, nan, str_eq,
  if◌then◌else◌,
}
use nest_js_ecomm_rd.Grpc.{reply}
use nest_js_ecomm_rd.Payments.Defs
use nest_js_ecomm_rd.Payments.Defs.{
  AuthorizePaymentInput, OperationInput, PaymentsService, authorized, refunded, captured, initial,
  recall, GetPaymentStatusResult, should_fail_transient, error, failed_precondition, get_status,
}
use nest_js_ecomm_rd.Payments.Calls.{authorizes, captures, refunds, step, run}
use nest_js_ecomm_rd.Payments.Plain.{plain_run, no_keys, first_calls}
use nest_js_ecomm_rd.Payments.Refinement.{run-first_calls}
use nest_js_ecomm_rd.Payments.Lifecycle.{IsLater, run-IsLater}
use nest_js_ecomm_rd.Payments.Outcomes.{
  IsCarriedOut, MayCapture, MayRefund, refund_final, operation-IsCarriedOut,
}
use nest_js_ecomm_rd.Payments.Controller.{AuthorizePayload, authorize}
use nest_js_ecomm_rd.Payments.Controller.Laws.{Answers, authorize_reply_iff}

abbrev order : AuthorizePaymentInput
order = record { order_id = "o1"; amount = "10.50"; currency = "EUR"; idempotency_key = some "k1" }

abbrev dearer : AuthorizePaymentInput
dearer = record order { amount = "99" }

abbrev pay : OperationInput
pay = record { payment_id = "p1"; idempotency_key = some "k2" }

abbrev pay_back : OperationInput
pay_back = record { payment_id = "p1"; idempotency_key = some "k3" }

abbrev pay_again : OperationInput
pay_again = record { payment_id = "p1"; idempotency_key = some "k4" }

abbrev opened : PaymentsService
opened = (Defs.authorize "p1" order initial).1

run-IsLater_example :
    (q : Defs.PaymentRecord) × ((run opened
          (captures pay ∷ authorizes "p2" dearer ∷ [])).payments_by_id
        "p1"
      ≡ some q)
    × IsLater (Defs.new_payment "p1" order) q
unfolding Defs.authorize Defs.capture step
run-IsLater_example =
    run-IsLater opened (captures pay ∷ authorizes "p2" dearer ∷ []) "p1"
      (Defs.new_payment "p1" order) (tt, (refl, tt)) refl

refund_final_example :
    ((r : GetPaymentStatusResult) × (get_status "p1"
          (run (Defs.refund pay_back opened).1 (captures pay ∷ []))
        ≡ some r)
      × (r.status ≡ refunded))
    × ((Defs.capture pay_again (run (Defs.refund pay_back opened).1 (captures pay ∷ []))).0
        ≡ error failed_precondition "cannot capture refunded payment")
unfolding Defs.authorize Defs.capture Defs.refund step run
refund_final_example =
    refund_final opened pay_back pay_again (Defs.new_payment "p1" order) (captures pay ∷ []) refl
      (inl refl) refl (tt, tt) refl refl

operation-IsCarriedOut_example :
    IsCarriedOut MayCapture captured "p1" opened
      (Defs.capture pay opened).1
      (Defs.capture pay opened).0
    × IsCarriedOut MayRefund refunded "p1" opened
        (Defs.refund pay opened).1
        (Defs.refund pay opened).0
unfolding Defs.authorize
operation-IsCarriedOut_example = operation-IsCarriedOut pay opened refl refl

-- `Number` on two texts.
abbrev number : String → Number
number s = if str_eq s "10.50" then decimal false 1050 2 else nan

abbrev payload : AuthorizePayload
payload = record {
  order_id = some "o1";
  amount = some "10.50";
  currency = some "EUR";
  idempotency_key = some "k1";
  simulate_unavailable_once = some true;
}

authorize_reply_iff_example :
    ((authorize number "p1" payload initial).0
      ≡ reply (record { payment_id = "p1"; status = authorized }))
    ↔ Answers number "p1" payload initial (record { payment_id = "p1"; status = authorized })
authorize_reply_iff_example =
    authorize_reply_iff number "p1" payload initial
      (record { payment_id = "p1"; status = authorized })

run-first_calls_example :
    let cs =
      authorizes "p1" order
      ∷ captures pay
      ∷ authorizes "p9" dearer
      ∷ refunds pay
      ∷ captures pay
      ∷ [] in
    (run initial cs).payments_by_id ≡ plain_run initial.payments_by_id (first_calls no_keys cs)
run-first_calls_example = run-first_calls (
    authorizes "p1" order ∷ captures pay ∷ authorizes "p9" dearer ∷ refunds pay ∷ captures pay ∷ [])

-- The repetitions are gone.
struck_out :
    first_calls no_keys (
      authorizes "p1" order
      ∷ captures pay
      ∷ authorizes "p9" dearer
      ∷ refunds pay
      ∷ captures pay
      ∷ [])
    ≡ authorizes "p1" order ∷ captures pay ∷ refunds pay ∷ []
struck_out = refl
