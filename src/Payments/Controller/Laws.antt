-- ===== src/Payments/Controller/Laws.antt =====
-- What the handlers of the gRPC controller guarantee on top of the service.
use nest_js_ecomm_rd.Base.{
  ℕ, String, ◌≡◌, refl, ◌≢◌, ◌⊎◌, inl, inr, ◌↔◌, ap, sym, ◌∙◌, true, false, Option, none, some,
  arith, eq_iff, Bool-cases, str_eq, ◌&&◌, ◌≤◌, Bool, List, [], ◌∷◌, codes, get_or, Number, nan,
  infinity, decimal,
}
use nest_js_ecomm_rd.Grpc
use nest_js_ecomm_rd.Grpc.{Rpc, reply, raise}
use nest_js_ecomm_rd.Payments.Defs
use nest_js_ecomm_rd.Payments.Defs.{
  authorized, AuthorizePaymentResult, PaymentsService, recall, should_fail_transient, new_payment,
}
use nest_js_ecomm_rd.Payments.Transient.{gate_closes, should_fail_transient-keeps}
use nest_js_ecomm_rd.Payments.Controller.{
  AuthorizePayload, three_upper, is_currency, to_input, is_amount, authorize, get_payment_status,
}

module _ (number : String → Number) where
  -- The checks on a payload.
  pub record IsValid (payload : AuthorizePayload) (order_id : String) : Type 0 where
    pub order : payload.order_id ≡ some order_id
    pub named : order_id ≢ ""
    pub amount : is_amount number payload.amount ≡ true
    pub currency : is_currency (get_or payload.currency "") ≡ true

  -- The text denotes a decimal number above zero.
  abbrev pub IsAboveZero : String → Type 0
  IsAboveZero amount =
      (mantissa scale : ℕ) × (number amount ≡ decimal false mantissa scale) × (1 ≤ mantissa)

  -- Three letters from A (65) to Z (90).
  abbrev pub IsThreeCapitals : List ℕ → Type 0
  IsThreeCapitals (a ∷ b ∷ c ∷ []) = (65 ≤ a) × (a ≤ 90) × (65 ≤ b) × (b ≤ 90) × (65 ≤ c) × (c ≤ 90)
  IsThreeCapitals _ = ⊥

  -- The order is named, the amount is above zero, the currency has three capitals, and the order is not to be
  -- failed or has been failed before; the service, with its gates as they were, answers `r`.
  abbrev pub Answers : String → AuthorizePayload → PaymentsService → AuthorizePaymentResult → Type 0
  Answers uuid payload s r =
      (order_id : String) × (payload.order_id ≡ some order_id)
      × (order_id ≢ "")
      × IsAboveZero (get_or payload.amount "")
      × IsThreeCapitals (codes (get_or payload.currency ""))
      × ((payload.simulate_unavailable_once ≢ some true)
          ⊎ (s.transient_fail_once_gate order_id ≡ true))
      × ((Defs.authorize uuid (to_input order_id payload) s).0 ≡ r)

  is_amount_iff :
      (amount : Option String) → (is_amount number amount ≡ true) ↔ IsAboveZero (get_or amount "")
  is_amount_iff amount = go (number (get_or amount "")) refl
    where
      go :
          (n : Number)
          → number (get_or amount "") ≡ n
          → (is_amount number amount ≡ true) ↔ IsAboveZero (get_or amount "")
      go nan e = (λ h. absurd (ground arith), λ (m, k, same, positive). absurd (cc))
      go (infinity negative) e = (λ h. absurd (ground arith), λ (m, k, same, positive). absurd (cc))
      go (decimal true m k) e =
          (λ h. absurd (ground arith), λ (m', k', same, positive). absurd (cc))
      go (decimal false m k) e = (
        λ h. (m, k, e, ground arith),
        λ (m', k', same, positive). let counted : m ≡ m' = ground arith in ground arith,
      )

  is_currency_iff : (s : String) → (is_currency s ≡ true) ↔ IsThreeCapitals (codes s)
  unfolding is_currency
  is_currency_iff s = go (codes s)
    where
      go : (cs : List ℕ) → (three_upper cs ≡ true) ↔ IsThreeCapitals cs
      go [] = (λ h. cc, λ h. elim h [ ])
      go (a ∷ []) = (λ h. cc, λ h. elim h [ ])
      go (a ∷ b ∷ []) = (λ h. cc, λ h. elim h [ ])
      go (a ∷ b ∷ c ∷ []) = (
        λ h. (ground arith, ground arith, ground arith, ground arith, ground arith, ground arith),
        λ (a1, a2, b1, b2, c1, c2). ground arith,
      )
      go (a ∷ b ∷ c ∷ d ∷ cs) = (λ h. cc, λ h. elim h [ ])

  gate_iff :
      (order_id : String) (simulate : Option Bool) (s : PaymentsService)
      → ((should_fail_transient order_id simulate s).0 ≡ false)
        ↔ ((simulate ≢ some true) ⊎ (s.transient_fail_once_gate order_id ≡ true))
  unfolding should_fail_transient
  gate_iff order_id none s = (λ h. inl (λ e. cc), λ h. refl)
  gate_iff order_id (some false) s = (λ h. inl (λ e. cc), λ h. refl)
  gate_iff order_id (some true) s = (
    λ h. inr (ground arith),
    λ h. elim h [ inl asked ↦ absurd (asked refl) | inr shut ↦ ground arith ],
  )

  gate_untouched :
      (order_id : String) (simulate : Option Bool) (s : PaymentsService)
      → (should_fail_transient order_id simulate s).0 ≡ false
      → (should_fail_transient order_id simulate s).1 ≡ s
  unfolding should_fail_transient
  gate_untouched order_id none s h = refl
  gate_untouched order_id (some false) s h = refl
  gate_untouched order_id (some true) s h = ground arith

  -- What the code asks for.
  reply_checked :
      (uuid : String) (payload : AuthorizePayload) (s : PaymentsService)
      (r : AuthorizePaymentResult) (o : Option String)
      → payload.order_id ≡ o
      → (authorize number uuid payload s).0 ≡ reply r
      → (order_id : String) × IsValid payload order_id
        × ((should_fail_transient order_id payload.simulate_unavailable_once s).0 ≡ false)
        × ((Defs.authorize uuid
              (to_input order_id payload)
              (should_fail_transient order_id payload.simulate_unavailable_once s).1).0
            ≡ r)
  unfolding authorize
  reply_checked uuid payload s r none e h = cc
  reply_checked uuid payload s r (some o) e h = (
    o,
    record {
      order = e;
      named = ground (arith, eq_iff o "");
      amount = ground arith;
      currency = ground arith;
    },
    ground arith,
    ground arith,
  )

  -- `Authorize` replies exactly to a payload with a named order, a decimal amount above zero and a currency
  -- of three letters from A to Z, unless it asks for a simulated outage and the order has not had one; the reply
  -- is then what the service answers, as it is.
  pub authorize_reply_iff :
      (uuid : String) (payload : AuthorizePayload) (s : PaymentsService)
      (r : AuthorizePaymentResult)
      → ((authorize number uuid payload s).0 ≡ reply r) ↔ Answers uuid payload s r
  unfolding authorize
  authorize_reply_iff uuid payload s r = (
    λ h.
        let (o, v, pass, e) = reply_checked uuid payload s r payload.order_id refl h in
        let same = gate_untouched o payload.simulate_unavailable_once s pass in
        (
          o,
          v.order,
          v.named,
          (is_amount_iff payload.amount).0 v.amount,
          (is_currency_iff (get_or payload.currency "")).0 v.currency,
          (gate_iff o payload.simulate_unavailable_once s).0 pass,
          ap (λ u. (Defs.authorize uuid (to_input o payload) u).0) (sym same) ∙ e,
        ),
    λ (o, order, named, amount, currency, gate, e).
        let amount' = (is_amount_iff payload.amount).1 amount in
        let currency' = (is_currency_iff (get_or payload.currency "")).1 currency in
        let pass = (gate_iff o payload.simulate_unavailable_once s).1 gate in
        let same = gate_untouched o payload.simulate_unavailable_once s pass in
        ground (arith, order, eq_iff o "", amount', currency', pass, same, e),
  )

  -- Refused for its content: nothing changes.
  abbrev pub IsInvalid : ℕ → PaymentsService → PaymentsService → Type 0
  IsInvalid code s s' = (code ≡ Grpc.invalid_argument) × (s' ≡ s)

  -- Refused by the gate of its order, which is closed from then on.
  abbrev pub IsOutage : AuthorizePayload → ℕ → PaymentsService → PaymentsService → Type 0
  IsOutage payload code s s' =
      (code ≡ Grpc.unavailable)
      × (s'.payments_by_id ≡ s.payments_by_id)
      × (s'.authorize_idempotency_results ≡ s.authorize_idempotency_results)
      × ((order_id : String) × (payload.order_id ≡ some order_id)
          × (s'.transient_fail_once_gate order_id ≡ true))

  module _ (uuid : String) (payload : AuthorizePayload) (s : PaymentsService) (code : ℕ)
      (message : String) where
    refusal_of_order :
        (o : Option String)
        → payload.order_id ≡ o
        → (authorize number uuid payload s).0 ≡ raise code message
        → IsInvalid code s (authorize number uuid payload s).1
          ⊎ IsOutage payload code s (authorize number uuid payload s).1
    unfolding authorize
    refusal_of_order none e h = inl (ground arith, ground arith)
    refusal_of_order (some o) e h = elim (Bool-cases (str_eq o "")) [
      | inl blank ↦ inl (ground arith, ground arith)
      | inr named ↦
          elim (Bool-cases
            (is_amount number payload.amount && is_currency (get_or payload.currency ""))) [
              | inr bad ↦ inl (ground arith, ground arith)
              | inl good ↦ inr (
                ground arith,
                ground (arith, should_fail_transient-keeps o payload.simulate_unavailable_once s),
                ground (arith, should_fail_transient-keeps o payload.simulate_unavailable_once s),
                (o, e, ground (arith, gate_closes s o payload.simulate_unavailable_once)),
              )
            ]
    ]

    -- A refused `Authorize` opens no payment and stores no answer. Its status is INVALID_ARGUMENT, and
    -- then nothing at all changes; or it is UNAVAILABLE, and then the gate of the order is closed, so
    -- that the order is not refused for that reason again.
    authorize_refused :
        (authorize number uuid payload s).0 ≡ raise code message
        → IsInvalid code s (authorize number uuid payload s).1
          ⊎ IsOutage payload code s (authorize number uuid payload s).1
    authorize_refused h = refusal_of_order payload.order_id refl h

-- A payment that the service authorizes under a key with no stored answer can be looked up at once,
-- and reads AUTHORIZED.
pub get_payment_status-authorize :
    (uuid : String) (input : Defs.AuthorizePaymentInput) (s : PaymentsService)
    → recall s.authorize_idempotency_results input.idempotency_key ≡ none
    → get_payment_status (Defs.authorize uuid input s).0.payment_id (Defs.authorize uuid input s).1
      ≡ reply (record { payment_id = uuid; status = authorized })
unfolding get_payment_status Defs.authorize Defs.get_status
get_payment_status-authorize uuid input s free = ground (arith, eq_iff uuid uuid)
