-- ===== src/Orders/Message.antt =====
-- The message about a new order (orders/order-process-message.type.ts), as a consumer sees it: a field
-- is absent when it is missing or of another type. The last three fields are the ones that the worker
-- adds; `error_reason` is a text in UTF-16 code units.
use nest_js_ecomm_rd.Base.{ℕ, String, false, Option, some, List, Number, decimal}
use nest_js_ecomm_rd.Entities.{OrderStatus}

abbrev pub Text : Type 0
Text = List ℕ

pub record OrderProcessMessage : Type 0 where
  pub message_id : Option String
  pub order_id : Option String
  pub created_at : Option String
  pub attempt : Option Number
  pub correlation_id : Option String
  pub producer : Option String
  pub event_name : Option String
  pub failed_at : Option ℕ
  pub retry_at : Option ℕ
  pub error_reason : Option Text

abbrev pub whole : ℕ → Option Number
whole n = some (decimal false n 0)

-- `OrderStatusChangedEvent` (orders/order-events.types.ts).
pub record OrderStatusChangedEvent : Type 0 where
  pub order_id : String
  pub status : OrderStatus
  pub version : ℕ
  pub ts : ℕ
