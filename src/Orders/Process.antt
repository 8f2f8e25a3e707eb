-- ===== src/Orders/Process.antt =====
-- `OrdersService.processOrderMessage`: the consumer's side of an order. The order is read without a lock; the
-- definitions are one call whose transaction no other call changes while it runs.
use nest_js_ecomm_rd.Base.{ℕ, String, Bool, Option, some, List, [], ◌∷◌, if◌then◌else◌, ◌==◌}
use nest_js_ecomm_rd.Errors.{not_found, Result, ok, err, ◌>>=◌, or_throw, is_unique_violation}
use nest_js_ecomm_rd.Entities.{Order, OrderStatus, created, pending, processed, paid, cancelled}
use nest_js_ecomm_rd.Database.{Tables, Orm}
use nest_js_ecomm_rd.Orders.Message.{OrderProcessMessage, OrderStatusChangedEvent}

abbrev pub rank : OrderStatus → ℕ
rank created = 0
rank pending = 1
rank processed = 2
rank paid = 3
rank cancelled = 4

-- `a === b`
abbrev pub same_status : OrderStatus → OrderStatus → Bool
same_status a b = rank a == rank b

-- What the transaction's callback returns.
pub data Effect : Type 0 where
  duplicate : Effect
  unchanged : Order → Effect
  changed : Order → Effect

pub data Outcome : Type 0 where
  done already_processed deduplicated : Outcome

-- The answer, the tables that are left, and the events published.
pub record Processed : Type 0 where
  pub reply : Result (Outcome × Option String)
  pub tables : Tables
  pub events : List OrderStatusChangedEvent

abbrev pub status_changed : ℕ → Order → OrderStatusChangedEvent
status_changed now order = record {
  order_id = order.id;
  status = order.status;
  version = order.updated_at;
  ts = now;
}

module _ (orm : Orm) (now : ℕ) where
  -- After the marker has been inserted.
  unfoldable pub mark_processed : OrderProcessMessage → Tables → Result (Effect × Tables)
  mark_processed message t = do
    order ← or_throw (orm.find_order message.order_id t) (not_found "Order not found")
    if same_status order.status processed
        then ok (unchanged order, t)
        else (orm.save_order (record order { status = processed; processed_at = some now }) t
            >>= λ (saved, t'). ok (changed saved, t'))

  -- The end of the transaction.
  abbrev pub committed : Effect × Tables → Result (Effect × Tables)
  committed (effect, t) = orm.commit t >>= λ t'. ok (effect, t')

  -- `dataSource.transaction(…)`: a unique violation leaves the transaction with nothing to commit.
  unfoldable pub in_transaction : OrderProcessMessage → Tables → Result (Effect × Tables)
  in_transaction message t = elim (orm.insert_processed message.message_id message.order_id t) [
    | err error ↦ if is_unique_violation error then ok (duplicate, t) else err error
    | ok t₁ ↦ mark_processed message t₁ >>= committed
  ]

  unfoldable pub process_order_message : OrderProcessMessage → Tables → Processed
  process_order_message message t = elim (in_transaction message t) [
    | err error ↦ record { reply = err error; tables = t; events = [] }
    | ok (duplicate, t') ↦ record {
      reply = ok (deduplicated, message.order_id);
      tables = t';
      events = [];
    }
    | ok (unchanged order, t') ↦ record {
      reply = ok (already_processed, message.order_id);
      tables = t';
      events = [];
    }
    | ok (changed order, t') ↦ record {
      reply = ok (done, some order.id);
      tables = t';
      events = status_changed now order ∷ [];
    }
  ]
