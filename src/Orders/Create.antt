-- ===== src/Orders/Create.antt =====
-- `OrdersService.create`. A transaction is a computation on the tables that it began with: when it
-- throws, these are the tables again. `others` is what other requests commit while this one waits.
use nest_js_ecomm_rd.Base.{
  ℕ, String, Bool, true, false, Option, none, some, List, [], ◌∷◌, if◌then◌else◌, truthy, Number,
}
use nest_js_ecomm_rd.Base.Int.{ℤ, pos, ◌-ℤ◌, ltb_ℤ, leb_ℤ}
use nest_js_ecomm_rd.Errors.{
  Exception, bad_request, not_found, conflict, Result, ok, err, ◌>>=◌, ◌>>◌, or_throw, throw_if,
  is_unique_violation,
}
use nest_js_ecomm_rd.Entities.{Order, OrderItem, Product, pending}
use nest_js_ecomm_rd.Database.{Tables, Orm, NewItem}
use nest_js_ecomm_rd.Orders.Message.{OrderProcessMessage, whole}

pub record CreateOrderItemDto : Type 0 where
  pub product_id : String
  pub quantity : ℤ
  pub price_snapshot : Number

pub record CreateOrderDto : Type 0 where
  pub user_id : String
  pub idempotency_key : Option String
  pub items : Option (List CreateOrderItemDto)

-- The input of the GraphQL mutation `createOrder`.
pub record OrderItemInput : Type 0 where
  pub product_id : String
  pub quantity : ℤ
  pub price_snapshot : String

pub record CreateOrderInput : Type 0 where
  pub user_id : String
  pub items : List OrderItemInput

-- `number` is JavaScript's `Number` on texts.
abbrev pub to_items : (String → Number) → List OrderItemInput → List CreateOrderItemDto
to_items number [] = []
to_items number (item ∷ items) =
    record {
      product_id = item.product_id;
      quantity = item.quantity;
      price_snapshot = number item.price_snapshot;
    }
    ∷ to_items number items

abbrev pub to_dto : (String → Number) → CreateOrderInput → CreateOrderDto
to_dto number input = record {
  user_id = input.user_id;
  idempotency_key = none;
  items = some (to_items number input.items);
}

-- What comes from outside while `create` runs: what other requests have committed at the points where it
-- waits outside its transaction, and what `publishToQueue` answers or throws.
pub record Interference : Type 0 where
  pub before_user : Tables → Tables
  pub before_transaction : Tables → Tables
  pub after_rollback : Tables → Tables
  pub publish : OrderProcessMessage → Result Bool

-- The answer, the tables that are left, and the messages for `orders.process` that `publishToQueue` was given
-- and returned from. Its answer is not looked at.
pub record Created : Type 0 where
  pub reply : Result (Order × Bool)
  pub tables : Tables
  pub published : List OrderProcessMessage

-- `idempotencyKey ?? dto.idempotencyKey ?? null`
abbrev pub key_of : Option String → CreateOrderDto → Option String
key_of none dto = dto.idempotency_key
key_of (some key) dto = some key

-- The row that an item becomes.
abbrev pub new_item : String → CreateOrderItemDto → NewItem
new_item order_id item = record {
  order_id = order_id;
  product_id = item.product_id;
  quantity = item.quantity;
  price_snapshot = item.price_snapshot;
}

-- `publishOrderCreated`
abbrev pub order_created : String → (ℕ → String) → Order → OrderProcessMessage
order_created uuid iso order = record {
  message_id = some uuid;
  order_id = some order.id;
  created_at = some (iso order.created_at);
  attempt = whole 0;
  correlation_id = some order.id;
  producer = some "orders-api";
  event_name = some "order.created";
  failed_at = none;
  retry_at = none;
  error_reason = none;
}

module _ (orm : Orm) where
  -- One round of the loop over `dto.items`, from the point where the product is found.
  unfoldable pub reserve_found :
      String → CreateOrderItemDto → Product → Tables → Result (OrderItem × Tables)
  reserve_found order_id item product t = do
    throw_if (leb_ℤ item.quantity (pos 0)) (bad_request "Quantity must be greater than zero")
    throw_if (ltb_ℤ product.stock item.quantity) (conflict "Insufficient stock")
    t' ← orm.save_product (record product { stock = product.stock -ℤ item.quantity }) t
    orm.insert_item (new_item order_id item) t'

  unfoldable pub reserve : String → CreateOrderItemDto → Tables → Result (OrderItem × Tables)
  reserve order_id item t = do
    product ← or_throw (orm.find_product item.product_id t) (not_found "Product not found")
    reserve_found order_id item product t

  -- The loop, which collects the saved items.
  unfoldable pub reserve_all :
      String → List CreateOrderItemDto → Tables → Result (List OrderItem × Tables)
  reserve_all order_id [] t = ok ([], t)
  reserve_all order_id (item ∷ items) t = do
    (saved, t') ← reserve order_id item t
    (rest, t'') ← reserve_all order_id items t'
    ok (saved ∷ rest, t'')

  -- The body of the transaction, up to the commit.
  unfoldable pub transaction :
      CreateOrderDto → List CreateOrderItemDto → Option String → Tables → Result (Order × Tables)
  transaction dto items key t = do
    (saved, t₁) ←
        orm.insert_order (record { user_id = dto.user_id; status = pending; idempotency_key = key })
          t
    (saved_items, t₂) ← reserve_all saved.id items t₁
    created ←
        or_throw (orm.find_order_with_items saved.id t₂)
          (not_found "Order not found after creation")
    t₃ ← orm.commit t₂
    ok (created, t₃)

  -- `if (key)`, and the order that is stored under the key.
  abbrev pub existing : Option String → Tables → Option Order
  existing key t = elim (truthy key) [ none ↦ none | some k ↦ orm.find_order_by_key k t ]

  module _ (others : Interference) (uuid : String) (iso : ℕ → String) where
    -- The `catch` block, on the tables after the rollback.
    unfoldable pub recover : Option String → Exception → Tables → Created
    recover key error t = elim (if is_unique_violation error then existing key t else none) [
      | some order ↦ record { reply = ok (order, true); tables = t; published = [] }
      | none ↦ record { reply = err error; tables = t; published = [] }
    ]

    -- After the commit. What `publishToQueue` throws is thrown on.
    abbrev pub announce : Order → Tables → Created
    announce order t = elim (others.publish (order_created uuid iso order)) [
      | ok sent ↦ record {
        reply = ok (order, false);
        tables = t;
        published = order_created uuid iso order ∷ [];
      }
      | err error ↦ record { reply = err error; tables = t; published = [] }
    ]

    -- Steps 2 to 4: the checks and the transaction.
    unfoldable pub place : CreateOrderDto → Option String → Tables → Created
    place dto key t = elim dto.items [
      | none ↦ refuse (bad_request "Order items cannot be empty")
      | some [] ↦ refuse (bad_request "Order items cannot be empty")
      | some (item ∷ items) ↦
          let t₁ = others.before_user t in
          elim (orm.find_user dto.user_id t₁) [
            | none ↦ record {
              reply = err (not_found "User not found");
              tables = t₁;
              published = [];
            }
            | some user ↦
                let t₂ = others.before_transaction t₁ in
                elim (transaction dto (item ∷ items) key t₂) [
                  | ok (order, t₃) ↦ announce order t₃
                  | err error ↦ recover key error (others.after_rollback t₂)
                ]
          ]
    ]
      where
        refuse : Exception → Created
        refuse error = record { reply = err error; tables = t; published = [] }

    unfoldable pub create : CreateOrderDto → Option String → Tables → Created
    create dto idempotency_key t = elim (existing (key_of idempotency_key dto) t) [
      | some order ↦ record { reply = ok (order, true); tables = t; published = [] }
      | none ↦ place dto (key_of idempotency_key dto) t
    ]

    -- `createFromInput`: the idempotency key is the argument alone.
    unfoldable pub create_from_input :
        (String → Number) → CreateOrderInput → Option String → Tables → Result Order × Created
    create_from_input number input idempotency_key t =
        let made = create (to_dto number input) idempotency_key t in
        (elim made.reply [ err error ↦ err error | ok answer ↦ ok answer.0 ], made)
