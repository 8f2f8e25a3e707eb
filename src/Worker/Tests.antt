-- ===== src/Worker/Tests.antt =====
-- The worker on concrete messages. In most, the state is the number of calls of
-- `processOrderMessage`.
use nest_js_ecomm_rd.Base.{ℕ, ◌+◌, ◌≤◌, ◌≡◌, ◌⊎◌, refl, true, false, none, some, [], ◌∷◌, arith}
use nest_js_ecomm_rd.Rabbitmq.{opened, closed, on_message, publish_to_queue}
use nest_js_ecomm_rd.Orders.Message.{Text, OrderProcessMessage, whole}
use nest_js_ecomm_rd.Worker.Defs.{
  literal_null, object, ProcessResult, failed, Settings, attempt_of, on_failure, handle_message,
}
use nest_js_ecomm_rd.Errors.{Exception}
use nest_js_ecomm_rd.Entities.{pending}
use nest_js_ecomm_rd.Database.{Tables, memory}
use nest_js_ecomm_rd.Orders.Deliveries.{about}
use nest_js_ecomm_rd.Worker.Pipeline.{receive_all, receive_all_once}
use nest_js_ecomm_rd.Worker.Settlement.{
  settlements, receive, WasProcessed, WasCopied, receive_settles, receive_loses_none,
}
use nest_js_ecomm_rd.Worker.Rounds.{
  Ended, confirms, ready, rounds, budget, EndsInDlq, rounds_end, rounds_exhausted,
}

abbrev usual : Settings
usual = record { max_attempts = 3; retry_base_delay_ms = 1000; retry_max_delay_ms = 30000 }

abbrev payload : OrderProcessMessage
payload = record {
  message_id = some "m1";
  order_id = some "o1";
  created_at = none;
  attempt = whole 0;
  correlation_id = some "o1";
  producer = some "orders-api";
  event_name = some "order.created";
  failed_at = none;
  retry_at = none;
  error_reason = none;
}

abbrev breaks : OrderProcessMessage → ℕ → ProcessResult × ℕ
breaks message calls = (failed (66 ∷ 97 ∷ 100 ∷ 10 ∷ 33 ∷ []), calls + 1)

abbrev clock : ℕ → ℕ
clock fuel = 0

receive_settles_example :
    ((ready.channel ≡ opened)
      × (settlements (receive confirms ready usual 0 breaks (object payload) 0).actions ≡ 1)
      × ((receive confirms ready usual 0 breaks (object payload) 0).threw ≡ false))
    ⊎ ((ready.channel ≡ closed)
        × ((receive confirms ready usual 0 breaks (object payload) 0).actions ≡ [])
        × ((receive confirms ready usual 0 breaks (object payload) 0).threw ≡ true))
receive_settles_example = receive_settles confirms ready usual 0 breaks (object payload) 0 (λ e. cc)

receive_loses_none_example :
    WasProcessed confirms ready usual 0 breaks (object payload) 0
    ⊎ WasCopied confirms ready usual 0 breaks
        (object payload)
        (receive confirms ready usual 0 breaks (object payload) 0).actions
unfolding receive handle_message on_failure attempt_of on_message publish_to_queue
receive_loses_none_example =
    receive_loses_none confirms ready usual 0 breaks (object payload) 0 refl

rounds_end_example :
    (e : Ended) × (rounds usual breaks clock 3 (object payload) 0 ≡ some e)
    × (e.deliveries ≤ budget usual breaks clock payload)
unfolding attempt_of
rounds_end_example = rounds_end usual breaks clock 3 payload 0 (omega arith)

rounds_exhausted_example :
    (e : Ended) × (rounds usual breaks clock 3 (object payload) 0 ≡ some e)
    × (e.deliveries ≡ budget usual breaks clock payload)
    × EndsInDlq usual breaks clock payload e.last
unfolding attempt_of
rounds_exhausted_example =
    rounds_exhausted usual breaks clock (λ m s. (66 ∷ 97 ∷ 100 ∷ 10 ∷ 33 ∷ [], refl)) 3 payload 0
      (omega arith)

abbrev shop : Tables
shop = record {
  users = [];
  products = [];
  orders =
      record {
        id = "o1";
        user_id = "u1";
        items = [];
        status = pending;
        idempotency_key = none;
        created_at = 0;
        updated_at = 0;
        processed_at = none;
      }
      ∷ [];
  order_items = [];
  processed_messages = λ id. false;
}

abbrev explain : Exception → Text
explain error = 66 ∷ []

receive_all_once_example :
    about "o1"
      (receive_all
        (memory "o2")
        explain
        confirms
        ready
        usual
        ((1, object payload) ∷ (2, literal_null) ∷ (3, object payload) ∷ [])
        (record { tables = shop; events = [] })).events
    ≤ about "o1" [] + 1
receive_all_once_example =
    receive_all_once (memory "o2") explain confirms ready usual "o1"
      ((1, object payload) ∷ (2, literal_null) ∷ (3, object payload) ∷ [])
      (record { tables = shop; events = [] })
