-- ===== src/Worker/Defs.antt =====
-- The handler of one message (`OrdersWorkerService`). A message's content stands for what
-- `JSON.parse` makes of it; a field of the payload is absent when it is missing or of another type.
-- `process` is `ordersService.processOrderMessage`. Logging is left out.
use nest_js_ecomm_rd.Base.{
  ℕ, ◌+◌, ◌-◌, ◌*◌, ◌^◌, min, String, Bool, true, false, ◌&&◌, Option, none, some, [], ◌∷◌, ◌++◌,
  leb, ◌==◌, if◌then◌else◌, take, Number, is_integer, is_positive, is_nonneg, to_ℕ, codes,
}
use nest_js_ecomm_rd.Rabbitmq.{
  PublishOptions, no_options, acked, Channel, closed, RabbitmqService, publish_to_queue, Handled,
}
use nest_js_ecomm_rd.Orders.Message.{Text, OrderProcessMessage, whole}
use nest_js_ecomm_rd.Orders.Process.{Outcome}

pub data Content : Type 0 where
  malformed : (base64 : String) → Content
  literal_null : Content
  object : OrderProcessMessage → Content

-- What the worker publishes.
pub data Published : Type 0 where
  invalid_json : (raw : String) → Published
  message : OrderProcessMessage → Published

-- How `processOrderMessage` ended: it returned an outcome, or threw an error of the given text.
pub data ProcessResult : Type 0 where
  returned : Outcome → ProcessResult
  failed : Text → ProcessResult

abbrev pub process_queue : String
process_queue = "orders.process"

abbrev pub retry_queue : String
retry_queue = "orders.retry.process"

abbrev pub dlq_queue : String
dlq_queue = "orders.dlq"

pub record Settings : Type 0 where
  pub max_attempts : ℕ
  pub retry_base_delay_ms : ℕ
  pub retry_max_delay_ms : ℕ

module _ (number : String → Number) where
  -- `Number(undefined)` is not a number.
  abbrev pub number_of : Option String → Number
  number_of none = Number.nan
  number_of (some value) = number value

  unfoldable pub parse_positive_int : Option String → ℕ → ℕ
  parse_positive_int value fallback =
      if is_integer (number_of value) && is_positive (number_of value)
      then to_ℕ (number_of value)
      else fallback

  -- The constructor: `get` reads the environment.
  pub settings : (String → Option String) → Settings
  settings get = record {
    max_attempts = parse_positive_int (get "ORDERS_MAX_ATTEMPTS") 3;
    retry_base_delay_ms = parse_positive_int (get "ORDERS_RETRY_BASE_DELAY_MS") 1000;
    retry_max_delay_ms = parse_positive_int (get "ORDERS_RETRY_MAX_DELAY_MS") 30000;
  }

-- `Math.max(0, nextAttempt - 1)` is the truncated difference.
unfoldable pub compute_retry_delay_ms : Settings → ℕ → ℕ
compute_retry_delay_ms c next_attempt =
    min (c.retry_base_delay_ms * 2 ^ (next_attempt - 1)) c.retry_max_delay_ms

-- `raw.split('\n')[0]`
abbrev pub first_line : Text → Text
first_line [] = []
first_line (c ∷ cs) = let rest = first_line cs in if c == 10 then [] else c ∷ rest

unfoldable pub get_short_error_reason : Text → Text
get_short_error_reason raw = take 160 (first_line raw)

-- The attempt that a payload carries, 0 where it is not a whole number from 0.
unfoldable pub attempt_of : Option Number → ℕ
attempt_of none = 0
attempt_of (some n) = if is_integer n && is_nonneg n then to_ℕ n else 0

-- The payload for the dead-letter queue.
abbrev pub to_dead_letter : ℕ → OrderProcessMessage → ℕ → Text → OrderProcessMessage
to_dead_letter now payload attempt error = record payload {
  attempt = whole attempt;
  failed_at = some now;
  error_reason = some (get_short_error_reason error);
}

-- The payload for the retry queue: the next attempt.
abbrev pub to_retry : ℕ → OrderProcessMessage → ℕ → Text → OrderProcessMessage
to_retry at payload attempt error = record payload {
  attempt = whole (attempt + 1);
  retry_at = some at;
  error_reason = some (get_short_error_reason error);
}

abbrev pub is_sent : Option Bool → Bool
is_sent none = false
is_sent (some published) = published

module _ {S : Type 0} (send : String → Bool) (service : RabbitmqService) (c : Settings)
    (now : ℕ) where
  -- Publishes and then acknowledges, or throws where the publication throws or answers false. A channel that
  -- has taken a message is still open for the `ack` that follows.
  pub publish_then_ack : String → Published → PublishOptions → S → Handled Published S
  publish_then_ack queue payload options s =
      let (published, actions) = publish_to_queue send service queue payload options in
      if is_sent published
      then record { actions = actions ++ acked ∷ []; state = s; threw = false }
      else record { actions = actions; state = s; threw = true }

  -- The `catch` block: to the dead-letter queue after the last attempt, or to the retry queue.
  unfoldable pub on_failure : OrderProcessMessage → ℕ → Text → S → Handled Published S
  unfolding publish_then_ack
  on_failure payload attempt error s =
      if leb (c.max_attempts - 1) attempt
      then publish_then_ack dlq_queue (message (to_dead_letter now payload attempt error))
          (record no_options {
            message_id = payload.message_id;
            correlation_id = payload.correlation_id;
          })
          s
      else let delay_ms = compute_retry_delay_ms c (attempt + 1) in
        publish_then_ack retry_queue (message (to_retry (now + delay_ms) payload attempt error))
          (record no_options {
            message_id = payload.message_id;
            correlation_id = payload.correlation_id;
            expiration = some delay_ms;
          })
          s

-- What amqplib throws: "Channel closed".
abbrev pub channel_closed : Text
channel_closed = codes "Channel closed"

module _ {S : Type 0} (send : String → Bool) (service : RabbitmqService) (c : Settings) (now : ℕ)
    (process : OrderProcessMessage → S → ProcessResult × S) where
  -- `channel.ack(message)` after the processing; where it throws, the `catch` block takes over.
  abbrev pub acknowledge : Channel → OrderProcessMessage → ℕ → S → Handled Published S
  acknowledge closed payload attempt s =
      on_failure send service c now payload attempt channel_closed s
  acknowledge _ payload attempt s = record { actions = acked ∷ []; state = s; threw = false }

  -- On `null` the read of `payload.attempt` throws before the block that catches.
  unfoldable pub handle_message : Content → S → Handled Published S
  unfolding publish_then_ack on_failure
  handle_message (malformed base64) s =
      publish_then_ack send service c now dlq_queue (invalid_json base64) no_options s
  handle_message literal_null s = record { actions = []; state = s; threw = true }
  handle_message (object payload) s =
      let attempt = attempt_of payload.attempt in
      let (result, s') = process (record payload { attempt = whole attempt }) s in
      elim result [
        | returned outcome ↦ acknowledge service.channel payload attempt s'
        | failed error ↦ on_failure send service c now payload attempt error s'
      ]
