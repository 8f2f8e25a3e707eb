-- ===== src/Worker/Settlement.antt =====
-- What becomes of a message that is consumed, on an open channel and on one that was closed.
use nest_js_ecomm_rd.Base.{
  ℕ, suc, ◌+◌, ◌-◌, String, ◌≡◌, ◌≢◌, ◌⊎◌, inl, inr, refl, Bool, true, false, Option, none, some,
  List, [], ◌∷◌, arith, leb, sym, subst, ◌∙◌, Bool-cases,
}
use nest_js_ecomm_rd.Rabbitmq.{
  Action, sent, acked, nacked, Channel, absent, opened, closed, RabbitmqService, publish_to_queue,
  Handled, on_message,
}
use nest_js_ecomm_rd.Orders.Message.{Text, OrderProcessMessage, whole}
use nest_js_ecomm_rd.Orders.Process.{Outcome}
use nest_js_ecomm_rd.Worker.Defs.{
  Content, malformed, literal_null, object, Published, invalid_json, message, ProcessResult,
  returned, failed, retry_queue, dlq_queue, Settings, compute_retry_delay_ms, attempt_of,
  to_dead_letter, to_retry, on_failure, handle_message,
}

-- How often the message is acknowledged or rejected.
abbrev pub settlements : {P : Type 0} → List (Action P) → ℕ
settlements [] = 0
settlements (sent queue payload options ∷ actions) = settlements actions
settlements (acked ∷ actions) = suc (settlements actions)
settlements (nacked all_up_to requeue ∷ actions) = suc (settlements actions)

-- Whether it is acknowledged.
abbrev pub is_acked : {P : Type 0} → List (Action P) → Bool
is_acked [] = false
is_acked (acked ∷ actions) = true
is_acked (_ ∷ actions) = is_acked actions

-- What is sent to a queue.
abbrev pub sent_to : {P : Type 0} → List (Action P) → Option (String × P)
sent_to [] = none
sent_to (sent queue payload options ∷ actions) = some (queue, payload)
sent_to (_ ∷ actions) = sent_to actions

channel-cases : (channel : Channel) → (channel ≡ absent) ⊎ ((channel ≡ opened) ⊎ (channel ≡ closed))
channel-cases absent = inl refl
channel-cases opened = inr (inl refl)
channel-cases closed = inr (inr refl)

module _ {S : Type 0} (send : String → Bool) (service : RabbitmqService) (c : Settings) (now : ℕ)
    (process : OrderProcessMessage → S → ProcessResult × S) where
  -- The worker under the callback of `consume`.
  unfoldable pub receive : Content → S → Handled Published S
  receive content s =
      on_message service.channel (handle_message send service c now process) (some content) s

  opened_settles :
      (content : Content) (s : S)
      → service.channel ≡ opened
      → (settlements (receive content s).actions ≡ 1) × ((receive content s).threw ≡ false)
  unfolding receive on_message handle_message on_failure publish_to_queue
  opened_settles (malformed base64) s h = ground arith
  opened_settles literal_null s h = ground arith
  opened_settles (object payload) s h = ground arith

  closed_throws :
      (content : Content) (s : S)
      → service.channel ≡ closed
      → ((receive content s).actions ≡ []) × ((receive content s).threw ≡ true)
  unfolding receive on_message handle_message on_failure publish_to_queue
  closed_throws (malformed base64) s h = ground arith
  closed_throws literal_null s h = ground arith
  closed_throws (object payload) s h = ground arith

  -- On an open channel a message is settled exactly once, acknowledged or rejected and requeued, and the
  -- callback does not throw. On a channel that was closed, nothing is sent or settled, and it throws.
  pub receive_settles :
      (content : Content) (s : S)
      → service.channel ≢ absent
      → ((service.channel ≡ opened)
          × (settlements (receive content s).actions ≡ 1)
          × ((receive content s).threw ≡ false))
        ⊎ ((service.channel ≡ closed)
            × ((receive content s).actions ≡ [])
            × ((receive content s).threw ≡ true))
  unfolding receive on_message handle_message on_failure publish_to_queue
  receive_settles content s there = elim (channel-cases service.channel) [
    | inl missing ↦ absurd (there missing)
    | inr (inl on) ↦ let (once, quiet) = opened_settles content s on in inl (on, once, quiet)
    | inr (inr off) ↦ let (silent, threw) = closed_throws content s off in inr (off, silent, threw)
  ]

  -- The message was handled: `processOrderMessage` returned.
  abbrev pub WasProcessed : Content → S → Type 0
  WasProcessed (object payload) s =
      (outcome : Outcome) × ((process
          (record payload { attempt = whole (attempt_of payload.attempt) }) s).0
        ≡ returned outcome)
  WasProcessed _ s = ⊥

  -- A copy of the message, with its identifiers, went to the retry or to the dead-letter queue.
  abbrev pub WasCopied : Content → List (Action Published) → Type 0
  WasCopied (malformed base64) actions = sent_to actions ≡ some (dlq_queue, invalid_json base64)
  WasCopied literal_null actions = ⊥
  WasCopied (object payload) actions =
      (queue : String) × (copy : OrderProcessMessage) × (sent_to actions
        ≡ some (queue, message copy))
      × ((queue ≡ retry_queue) ⊎ (queue ≡ dlq_queue))
      × (copy.message_id ≡ payload.message_id)
      × (copy.order_id ≡ payload.order_id)

  -- Where processing fails, a message that is acknowledged was copied.
  failure_copies :
      (payload : OrderProcessMessage) (attempt : ℕ) (error : Text) (s : S)
      → is_acked (on_failure send service c now payload attempt error s).actions ≡ true
      → WasCopied (object payload) (on_failure send service c now payload attempt error s).actions
  unfolding on_failure publish_to_queue
  failure_copies payload attempt error s h = elim (Bool-cases (leb (c.max_attempts - 1) attempt)) [
    | inl last ↦
        (dlq_queue, to_dead_letter now payload attempt error, ground arith, inr refl, refl, refl)
    | inr more ↦ (
      retry_queue,
      to_retry (now + compute_retry_delay_ms c (attempt + 1)) payload attempt error,
      ground arith,
      inl refl,
      refl,
      refl,
    )
  ]

  -- A handler that ends by an exception has not acknowledged.
  receive-handle :
      (content : Content) (s : S)
      → is_acked (receive content s).actions ≡ true
      → (receive content s).actions ≡ (handle_message send service c now process content s).actions
  unfolding receive on_message handle_message publish_to_queue
  receive-handle (malformed base64) s h = ground arith
  receive-handle literal_null s h = ground arith
  receive-handle (object payload) s h = ground arith

  handle_of_failure :
      (payload : OrderProcessMessage) (error : Text) (s : S)
      → (process (record payload { attempt = whole (attempt_of payload.attempt) }) s).0
        ≡ failed error
      → (handle_message send service c now process (object payload) s).actions
        ≡ (on_failure send service c now payload
            (attempt_of payload.attempt)
            error
            (process (record payload { attempt = whole (attempt_of payload.attempt) }) s).1).actions
  unfolding handle_message
  handle_of_failure payload error s e = ground arith

  -- No message is lost: one that is acknowledged was processed, or a copy of it was sent on.
  pub receive_loses_none :
      (content : Content) (s : S)
      → is_acked (receive content s).actions ≡ true
      → WasProcessed content s ⊎ WasCopied content (receive content s).actions
  unfolding receive on_message handle_message publish_to_queue
  receive_loses_none (malformed base64) s h = inr (ground arith)
  receive_loses_none literal_null s h = absurd (ground arith)
  receive_loses_none (object payload) s h = by_result _ refl
    where
      p : OrderProcessMessage
      p = record payload { attempt = whole (attempt_of payload.attempt) }

      by_result :
          (r : ProcessResult)
          → (process p s).0 ≡ r
          → WasProcessed (object payload) s
            ⊎ WasCopied (object payload) (receive (object payload) s).actions
      by_result (returned outcome) e = inl (outcome, e)
      by_result (failed error) e =
          let same = receive-handle (object payload) s h ∙ handle_of_failure payload error s e in
          inr (
            subst (WasCopied (object payload)) (sym same) (
              failure_copies payload (attempt_of payload.attempt) error _
                (subst (λ a. is_acked a ≡ true) same h)))

  -- The JSON text `null` is never settled for good: each delivery fails outside the retry logic, and
  -- the broker is told to deliver the message again, with no attempt counted and no copy made.
  pub null_is_requeued :
      (s : S)
      → service.channel ≡ opened
      → ((receive literal_null s).actions ≡ nacked false true ∷ [])
        × ((receive literal_null s).state ≡ s)
  unfolding receive on_message handle_message
  null_is_requeued s h = (ground arith, ground arith)
