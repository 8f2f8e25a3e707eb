-- ===== src/Worker/Rounds.antt =====
-- All the deliveries of one message: a rejected message comes back, and the retry queue, when its
-- delay is over, hands a message back to `orders.process` (rabbitmq/rabbitmq.service.ts declares it
-- with that dead-letter route). The channel stays open and every publication is confirmed.
use nest_js_ecomm_rd.Base.{
  ℕ, zero, suc, ◌+◌, ◌-◌, ◌≤◌, ◌<◌, max, String, ◌≡◌, inl, inr, refl, Bool, true, false, Option,
  none, some, List, [], ◌∷◌, arith, leb, if◌then◌else◌, str_eq, Bool-cases,
}
use nest_js_ecomm_rd.Rabbitmq.{
  Action, sent, acked, nacked, opened, RabbitmqService, publish_to_queue, on_message,
}
use nest_js_ecomm_rd.Rabbitmq.Topology.{topology, dead_letter_target}
use nest_js_ecomm_rd.Orders.Message.{Text, OrderProcessMessage, whole}
use nest_js_ecomm_rd.Orders.Process.{Outcome}
use nest_js_ecomm_rd.Worker.Defs.{
  Content, object, Published, invalid_json, message, ProcessResult, returned, failed, process_queue,
  dlq_queue, Settings, compute_retry_delay_ms, attempt_of, to_retry, to_dead_letter, handle_message,
}
use nest_js_ecomm_rd.Worker.Settlement.{sent_to, receive}

abbrev to_content : Published → Option Content
to_content (invalid_json raw) = none
to_content (message payload) = some (object payload)

-- A message in the queue comes to `orders.process` in the end, by the topology of the start.
abbrev returns : String → Bool
returns queue = elim (dead_letter_target topology queue) [
  | none ↦ false
  | some target ↦ str_eq target process_queue
]

-- What the broker delivers next to `orders.process` because of these actions.
abbrev pub next_delivery : Content → List (Action Published) → Option Content
next_delivery content [] = none
next_delivery content (sent queue payload options ∷ actions) =
    if returns queue then to_content payload else next_delivery content actions
next_delivery content (acked ∷ actions) = next_delivery content actions
next_delivery content (nacked all_up_to requeue ∷ actions) =
    if requeue then some content else next_delivery content actions

-- How many deliveries there were, and what the last one did.
pub record Ended : Type 0 where
  pub deliveries : ℕ
  pub last : List (Action Published)

abbrev one_more : Option Ended → Option Ended
one_more none = none
one_more (some e) = some (record e { deliveries = suc e.deliveries })

attempt_of-whole : (n : ℕ) → attempt_of (whole n) ≡ n
unfolding attempt_of
attempt_of-whole n = ground arith

-- A broker that confirms each publication, over a channel that is ready.
abbrev pub confirms : String → Bool
confirms queue = true

abbrev pub ready : RabbitmqService
ready = record { channel = opened; enabled = true }

module _ {S : Type 0} (c : Settings) (process : OrderProcessMessage → S → ProcessResult × S)
    (clock : ℕ → ℕ) where
  -- `clock` gives the time of each delivery, by the fuel left; `none` means that the fuel ran out.
  pub rounds : ℕ → Content → S → Option Ended
  rounds zero content s = none
  rounds (suc fuel) content s =
      let done = receive confirms ready c (clock fuel) process content s in
      elim (next_delivery content done.actions) [
        | none ↦ some (record { deliveries = 1; last = done.actions })
        | some content' ↦ one_more (rounds fuel content' done.state)
      ]

  -- The deliveries that a payload has left.
  abbrev pub budget : OrderProcessMessage → ℕ
  budget payload = max 1 (c.max_attempts - attempt_of payload.attempt)

  module _ (now : ℕ) (payload : OrderProcessMessage) (s : S) where
    abbrev attempt : ℕ
    attempt = attempt_of payload.attempt

    abbrev result : ProcessResult
    result = (process (record payload { attempt = whole (attempt_of payload.attempt) }) s).0

    abbrev actions : List (Action Published)
    actions = (receive confirms ready c now process (object payload) s).actions

    abbrev copy : Text → OrderProcessMessage
    copy error =
        to_retry (now + compute_retry_delay_ms c (attempt_of payload.attempt + 1)) payload
          (attempt_of payload.attempt) error

    next_of_returned :
        {o : Outcome} → result ≡ returned o → next_delivery (object payload) actions ≡ none
    unfolding receive on_message handle_message publish_to_queue
    next_of_returned e = ground arith

    actions_of_last :
        {error : Text}
        → result ≡ failed error
        → c.max_attempts ≤ attempt + 1
        → (next_delivery (object payload) actions ≡ none)
          × (sent_to actions ≡ some (dlq_queue, message (to_dead_letter now payload attempt error)))
    unfolding receive on_message handle_message publish_to_queue
    actions_of_last e h = ground arith

    next_of_retry :
        {error : Text}
        → result ≡ failed error
        → attempt + 1 < c.max_attempts
        → next_delivery (object payload) actions ≡ some (object (copy error))
    unfolding receive on_message handle_message publish_to_queue
    next_of_retry e h = ground arith

    -- What a delivery leads to.
    data Next : Type 0 where
      over : {o : Outcome} → result ≡ returned o → Next
      last : {error : Text} → result ≡ failed error → c.max_attempts ≤ attempt + 1 → Next
      again : {error : Text} → result ≡ failed error → attempt + 1 < c.max_attempts → Next

    next_of : Next
    next_of = by_result result refl
      where
        by_result : (r : ProcessResult) → result ≡ r → Next
        by_result (returned o) e = over e
        by_result (failed error) e = elim (Bool-cases (leb c.max_attempts (attempt + 1))) [
          | inl h ↦ last e (ground arith)
          | inr h ↦ again e (ground arith)
        ]

  -- A message is delivered at most as often as attempts are left to it, at least once, whatever
  -- `processOrderMessage` does: with that much fuel the deliveries come to an end.
  pub rounds_end :
      (fuel : ℕ) (payload : OrderProcessMessage) (s : S)
      → budget payload ≤ fuel
      → (e : Ended) × (rounds fuel (object payload) s ≡ some e) × (e.deliveries ≤ budget payload)
  unfolding rounds
  rounds_end zero payload s h = absurd (omega arith)
  rounds_end (suc fuel) payload s h = elim (next_of (clock fuel) payload s) [
    | over e ↦ (
      record { deliveries = 1; last = actions (clock fuel) payload s },
      rw (next_of_returned (clock fuel) payload s e, rounds),
      omega arith,
    )
    | last e end ↦ (
      record { deliveries = 1; last = actions (clock fuel) payload s },
      rw ((actions_of_last (clock fuel) payload s e end).0, rounds),
      omega arith,
    )
    | again {error} e more ↦
        let next = next_of_retry (clock fuel) payload s e more in
        let (r, found, few) =
          rounds_end fuel (copy (clock fuel) payload s error)
            (receive confirms ready c (clock fuel) process (object payload) s).state
            (omega (arith, attempt_of-whole (attempt_of payload.attempt + 1))) in
        (
          record r { deliveries = suc r.deliveries },
          rw (next, rounds, found),
          omega (arith, attempt_of-whole (attempt_of payload.attempt + 1)),
        )
  ]

  -- The last delivery sent the message to the dead-letter queue, with the number of its last attempt.
  abbrev pub EndsInDlq : OrderProcessMessage → List (Action Published) → Type 0
  EndsInDlq payload actions =
      (dead : OrderProcessMessage) × (sent_to actions ≡ some (dlq_queue, message dead))
      × (dead.message_id ≡ payload.message_id)
      × (dead.order_id ≡ payload.order_id)
      × (attempt_of dead.attempt ≡ max (attempt_of payload.attempt) (c.max_attempts - 1))

  -- While the channel stays open and the broker confirms each publication, a message for which
  -- `processOrderMessage` fails each time is delivered exactly as often as attempts are left to it, and then
  -- goes to the dead-letter queue, with its identifiers and the number of its last attempt.
  pub rounds_exhausted :
      (fails : (payload : OrderProcessMessage) (s : S)
        → (error : Text) × ((process payload s).0 ≡ failed error))
      (fuel : ℕ) (payload : OrderProcessMessage) (s : S)
      → budget payload ≤ fuel
      → (e : Ended) × (rounds fuel (object payload) s ≡ some e)
        × (e.deliveries ≡ budget payload)
        × EndsInDlq payload e.last
  unfolding rounds
  rounds_exhausted fails zero payload s h = absurd (omega arith)
  rounds_exhausted fails (suc fuel) payload s h = elim (next_of (clock fuel) payload s) [
    | over e ↦
        let (error, failing) =
          fails (record payload { attempt = whole (attempt_of payload.attempt) }) s in
        absurd (cc)
    | last {error} e end ↦
        let (stops, goes) = actions_of_last (clock fuel) payload s e end in
        (
          record { deliveries = 1; last = actions (clock fuel) payload s },
          rw (stops, rounds),
          omega arith,
          (
            to_dead_letter (clock fuel) payload (attempt_of payload.attempt) error,
            goes,
            refl,
            refl,
            omega (arith, attempt_of-whole (attempt_of payload.attempt)),
          ),
        )
    | again {error} e more ↦
        let next = next_of_retry (clock fuel) payload s e more in
        let (r, found, exact, (dead, goes, same_id, same_order, final)) =
          rounds_exhausted fails fuel (copy (clock fuel) payload s error)
            (receive confirms ready c (clock fuel) process (object payload) s).state
            (omega (arith, attempt_of-whole (attempt_of payload.attempt + 1))) in
        (
          record r { deliveries = suc r.deliveries },
          rw (next, rounds, found),
          omega (arith, attempt_of-whole (attempt_of payload.attempt + 1)),
          (
            dead,
            goes,
            same_id,
            same_order,
            omega (arith, attempt_of-whole (attempt_of payload.attempt + 1)),
          ),
        )
  ]
