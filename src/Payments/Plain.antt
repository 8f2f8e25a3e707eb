-- ===== src/Payments/Plain.antt =====
-- The payments without idempotency keys: each call is carried out, however often it is sent. This is what
-- the service is to do with the calls that are left when every repetition of a key is struck out.
use nest_js_ecomm_rd.Base.{
  String, Bool, false, ◌||◌, Option, none, some, List, [], ◌∷◌, if◌then◌else◌, truthy, Map,
  StringSet, add, set,
}
use nest_js_ecomm_rd.Payments.Defs.{
  PaymentStatus, authorized, captured, refunded, same_status, PaymentRecord, new_payment,
}
use nest_js_ecomm_rd.Payments.Calls.{Call, authorizes, captures, refunds, probes}

-- The status of a stored payment is overwritten, if it is one of those that may be.
abbrev move :
    (PaymentStatus → Bool) → PaymentStatus → String → Map PaymentRecord → Map PaymentRecord
move may target id payments = elim (payments id) [
  | none ↦ payments
  | some payment ↦
      if may payment.status then set id (record payment { status = target }) payments else payments
]

abbrev may_capture : PaymentStatus → Bool
may_capture status = same_status status authorized

abbrev may_refund : PaymentStatus → Bool
may_refund status = same_status status authorized || same_status status captured

abbrev pub plain : Map PaymentRecord → Call → Map PaymentRecord
plain payments (authorizes id input) = set id (new_payment id input) payments
plain payments (captures input) = move may_capture captured input.payment_id payments
plain payments (refunds input) = move may_refund refunded input.payment_id payments
plain payments (probes order_id flag) = payments

abbrev pub plain_run : Map PaymentRecord → List Call → Map PaymentRecord
plain_run payments [] = payments
plain_run payments (c ∷ cs) = plain_run (plain payments c) cs

-- The keys that each method has been sent.
pub record Keys : Type 0 where
  pub authorize : StringSet
  pub capture : StringSet
  pub refund : StringSet

abbrev pub no_keys : Keys
no_keys = record { authorize = λ k. false; capture = λ k. false; refund = λ k. false }

-- A key that is absent or empty is never a repetition.
abbrev pub sent : Option String → StringSet → Bool
sent key keys = elim (truthy key) [ none ↦ false | some k ↦ keys k ]

abbrev pub note : Option String → StringSet → StringSet
note key keys = elim (truthy key) [ none ↦ keys | some k ↦ add k keys ]

-- The calls without the repetitions of a key.
abbrev pub first_calls : Keys → List Call → List Call
first_calls keys [] = []
first_calls keys (authorizes id input ∷ cs) =
    let rest = first_calls keys cs in
    let rest' =
      first_calls (record keys { authorize = note input.idempotency_key keys.authorize }) cs in
    if sent input.idempotency_key keys.authorize then rest else authorizes id input ∷ rest'
first_calls keys (captures input ∷ cs) =
    let rest = first_calls keys cs in
    let rest' =
      first_calls (record keys { capture = note input.idempotency_key keys.capture }) cs in
    if sent input.idempotency_key keys.capture then rest else captures input ∷ rest'
first_calls keys (refunds input ∷ cs) =
    let rest = first_calls keys cs in
    let rest' = first_calls (record keys { refund = note input.idempotency_key keys.refund }) cs in
    if sent input.idempotency_key keys.refund then rest else refunds input ∷ rest'
first_calls keys (probes order_id flag ∷ cs) = first_calls keys cs
