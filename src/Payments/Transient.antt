-- ===== src/Payments/Transient.antt =====
-- The gate for simulated outages: `shouldFailTransient` fails an order at most once.
use nest_js_ecomm_rd.Base.{String, ◌≡◌, Bool, true, false, Option, List, [], ◌∷◌, arith, eq_iff}
use nest_js_ecomm_rd.Payments.Defs.{
  PaymentsService, authorize, capture, refund, should_fail_transient,
}
use nest_js_ecomm_rd.Payments.Calls.{Call, authorizes, captures, refunds, probes, step, run}

step-gate_kept :
    (s : PaymentsService) (c : Call) (order_id : String)
    → s.transient_fail_once_gate order_id ≡ true
    → (step s c).transient_fail_once_gate order_id ≡ true
unfolding step authorize capture refund should_fail_transient
step-gate_kept s (authorizes id input) o h = ground arith
step-gate_kept s (captures input) o h = ground arith
step-gate_kept s (refunds input) o h = ground arith
step-gate_kept s (probes order_id flag) o h = ground (arith, eq_iff order_id o)

run-gate_kept :
    (s : PaymentsService) (cs : List Call) (order_id : String)
    → s.transient_fail_once_gate order_id ≡ true
    → (run s cs).transient_fail_once_gate order_id ≡ true
unfolding run
run-gate_kept s [] o h = h
run-gate_kept s (c ∷ cs) o h = run-gate_kept (step s c) cs o (step-gate_kept s c o h)

pub gate_closes :
    (s : PaymentsService) (order_id : String) (flag : Option Bool)
    → (should_fail_transient order_id flag s).0 ≡ true
    → (should_fail_transient order_id flag s).1.transient_fail_once_gate order_id ≡ true
unfolding should_fail_transient
gate_closes s o flag h = ground (arith, eq_iff o o)

-- The gate is all that a call changes.
pub should_fail_transient-keeps :
    (order_id : String) (flag : Option Bool) (s : PaymentsService)
    → let s' = (should_fail_transient order_id flag s).1 in
      (s'.payments_by_id ≡ s.payments_by_id)
      × (s'.authorize_idempotency_results ≡ s.authorize_idempotency_results)
unfolding should_fail_transient
should_fail_transient-keeps order_id flag s = ground arith

gate_closed :
    (s : PaymentsService) (order_id : String) (flag : Option Bool)
    → s.transient_fail_once_gate order_id ≡ true
    → should_fail_transient order_id flag s ≡ (false, s)
unfolding should_fail_transient
gate_closed s o flag h = ground arith

-- Once an order has failed, no later call fails it again, whatever calls come between.
fails_once :
    (s : PaymentsService) (order_id : String) (flag again : Option Bool) (cs : List Call)
    → (should_fail_transient order_id flag s).0 ≡ true
    → should_fail_transient order_id again (run (should_fail_transient order_id flag s).1 cs)
      ≡ (false, run (should_fail_transient order_id flag s).1 cs)
fails_once s o flag again cs h =
    gate_closed _ o again (run-gate_kept _ cs o (gate_closes s o flag h))
