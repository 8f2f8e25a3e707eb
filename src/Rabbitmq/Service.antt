-- ===== src/Rabbitmq/Service.antt =====
-- `RabbitmqService`: publishing and consuming through one AMQP channel. What the
-- service does to the channel is a list of actions; `send` is the answer of `channel.sendToQueue`,
-- which is part of amqplib and so a parameter. On a channel that was closed, every operation of amqplib throws.
use nest_js_ecomm_rd.Base.{
  ℕ, String, Bool, true, false, not, Option, none, some, List, [], ◌∷◌, ◌++◌, if◌then◌else◌,
}

-- `expiration` is the number of milliseconds that the text in the option denotes.
pub record PublishOptions : Type 0 where
  pub message_id : Option String
  pub correlation_id : Option String
  pub timestamp : Option ℕ
  pub expiration : Option ℕ

abbrev pub no_options : PublishOptions
no_options = record {
  message_id = none;
  correlation_id = none;
  timestamp = none;
  expiration = none;
}

-- What is done to the channel; `acked` and `nacked` are about the message that is being consumed.
pub data Action (P : Type 0) : Type 0 where
  sent : (queue : String) → P → PublishOptions → Action P
  acked : Action P
  nacked : (all_up_to requeue : Bool) → Action P

-- The field `channel`: null, or a channel that is open or was closed.
pub data Channel : Type 0 where
  absent opened closed : Channel

pub record RabbitmqService : Type 0 where
  pub channel : Channel
  pub enabled : Bool

module _ {P : Type 0} (send : String → Bool) (service : RabbitmqService) where
  abbrev send_to_channel : Channel → String → P → PublishOptions → Option Bool × List (Action P)
  send_to_channel absent queue payload options = (some false, [])
  send_to_channel opened queue payload options =
      (some (send queue), sent queue payload options ∷ [])
  send_to_channel closed queue payload options = (none, [])

  -- The answer is absent where the method throws.
  unfoldable pub publish_to_queue : String → P → PublishOptions → Option Bool × List (Action P)
  publish_to_queue queue payload options =
      if not service.enabled
      then (some false, [])
      else send_to_channel service.channel queue payload options

-- How a handler of one message ended: what it did to the channel, the state that it left, and whether
-- it threw.
pub record Handled (P S : Type 0) : Type 0 where
  pub actions : List (Action P)
  pub state : S
  pub threw : Bool

-- `this.channel?.nack(message, false, true)`
abbrev pub requeue : {P S : Type 0} → Channel → Handled P S → Handled P S
requeue absent done = record done { threw = false }
requeue opened done = record done {
  actions = done.actions ++ nacked false true ∷ [];
  threw = false;
}
requeue closed done = record done { threw = true }

-- The callback that `consume` registers: a handler that throws has its message requeued. Where the channel
-- was closed, the callback throws itself.
unfoldable pub on_message :
    {P S M : Type 0} → Channel → (M → S → Handled P S) → Option M → S → Handled P S
on_message channel handler none s = record { actions = []; state = s; threw = false }
on_message channel handler (some message) s =
    let done = handler message s in if done.threw then requeue channel done else done
