-- ===== src/Payments/Calls.antt =====
-- Sequences of calls of `PaymentsService`, in the order in which its event loop runs them.
use nest_js_ecomm_rd.Base.{String, ◌≡◌, Bool, Option, none, some, List, [], ◌∷◌}
use nest_js_ecomm_rd.Payments.Defs.{
  AuthorizePaymentInput, OperationInput, PaymentsService, authorize, capture, refund,
  should_fail_transient,
}

-- The methods that change the state; `authorizes` carries the identifier that `randomUUID` gives.
pub data Call : Type 0 where
  authorizes : String → AuthorizePaymentInput → Call
  captures : OperationInput → Call
  refunds : OperationInput → Call
  probes : String → Option Bool → Call

unfoldable pub step : PaymentsService → Call → PaymentsService
step s (authorizes id input) = (authorize id input s).1
step s (captures input) = (capture input s).1
step s (refunds input) = (refund input s).1
step s (probes order_id flag) = (should_fail_transient order_id flag s).1

unfoldable pub run : PaymentsService → List Call → PaymentsService
run s [] = s
run s (c ∷ cs) = run (step s c) cs

-- The identifier that a call draws.
abbrev pub new_id : Call → Option String
new_id (authorizes id input) = some id
new_id _ = none

-- `randomUUID` does not repeat an identifier that is in use.
abbrev pub IsFresh : PaymentsService → Call → Type 0
IsFresh s (authorizes id input) = s.payments_by_id id ≡ none
IsFresh s _ = Unit

abbrev pub AllFresh : PaymentsService → List Call → Type 0
AllFresh s [] = Unit
AllFresh s (c ∷ cs) = IsFresh s c × AllFresh (step s c) cs
