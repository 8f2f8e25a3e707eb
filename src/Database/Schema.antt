-- ===== src/Database/Schema.antt =====
-- The tables, how they are searched, and the operations with their laws.
use nest_js_ecomm_rd.Base.{
  ℕ, String, ◌≡◌, ◌↔◌, Bool, true, false, Option, none, some, List, [], ◌∷◌, if◌then◌else◌, str_eq,
  filterb, StringSet, add, arith, eq_iff, Number,
}
use nest_js_ecomm_rd.Base.Int.{ℤ}
use nest_js_ecomm_rd.Entities.{User, Product, Order, OrderItem, OrderStatus}
use nest_js_ecomm_rd.Errors.{Exception, driver, Result, ok, err}

-- The rows of a table, found and replaced by their primary key.
module _ {A : Type 0} (key : A → String) where
  abbrev pub find_by : String → List A → Option A
  find_by id [] = none
  find_by id (row ∷ rows) = if str_eq (key row) id then some row else find_by id rows

  abbrev pub replace_by : A → List A → List A
  replace_by new [] = []
  replace_by new (row ∷ rows) =
      if str_eq (key row) (key new) then new ∷ rows else row ∷ replace_by new rows

  pub find_by-key :
      (id : String) (rows : List A) (row : A) → find_by id rows ≡ some row → key row ≡ id
  find_by-key id [] row e = cc
  find_by-key id (r ∷ rows) row e = ground (arith, eq_iff (key r) id, find_by-key id rows row)

  -- A replacement is found under its key, and no other row is touched.
  pub find_by-replace_by :
      (new : A) (rows : List A) (old : A) (id : String)
      → find_by (key new) rows ≡ some old
      → find_by id (replace_by new rows)
        ≡ (if str_eq (key new) id then some new else find_by id rows)
  find_by-replace_by new [] old id e = cc
  find_by-replace_by new (r ∷ rows) old id e = ground (
    arith,
    eq_iff (key r) (key new),
    eq_iff (key new) id,
    eq_iff (key r) id,
    find_by-replace_by new rows old id,
  )

abbrev pub user_id : User → String
user_id user = user.id

abbrev pub product_id : Product → String
product_id product = product.id

abbrev pub order_id : Order → String
order_id order = order.id

-- Orders and items stand newest first; `items` of an order in the table is empty.
pub record Tables : Type 0 where
  pub users : List User
  pub products : List Product
  pub orders : List Order
  pub order_items : List OrderItem
  pub processed_messages : StringSet

abbrev pub same_key : Option String → String → Bool
same_key none key = false
same_key (some k) key = str_eq k key

-- The unique index on `idempotency_key`.
abbrev pub order_by_key : String → List Order → Option Order
order_by_key key [] = none
order_by_key key (o ∷ os) = if same_key o.idempotency_key key then some o else order_by_key key os

abbrev pub items_of : String → List OrderItem → List OrderItem
items_of id items = filterb (λ item. str_eq item.order_id id) items

-- `relations: ['items']`
abbrev pub join_items : Tables → Option Order → Option Order
join_items t none = none
join_items t (some o) = some (record o { items = items_of o.id t.order_items })

pub record NewOrder : Type 0 where
  pub user_id : String
  pub status : OrderStatus
  pub idempotency_key : Option String

pub record NewItem : Type 0 where
  pub order_id : String
  pub product_id : String
  pub quantity : ℤ
  pub price_snapshot : Number

abbrev pub unique_violation : Exception
unique_violation = driver (some "23505")

-- A saved entity has the columns that it was created with.
pub record IsSavedOrder (n : NewOrder) (o : Order) : Type 0 where
  pub user_id : o.user_id ≡ n.user_id
  pub status : o.status ≡ n.status
  pub idempotency_key : o.idempotency_key ≡ n.idempotency_key
  pub items : o.items ≡ []

pub record IsSavedItem (n : NewItem) (item : OrderItem) : Type 0 where
  pub order_id : item.order_id ≡ n.order_id
  pub product_id : item.product_id ≡ n.product_id
  pub quantity : item.quantity ≡ n.quantity
  pub price_snapshot : item.price_snapshot ≡ n.price_snapshot

-- Only `updatedAt` is set by an update.
pub record IsUpdated (o o' : Order) : Type 0 where
  pub id : o'.id ≡ o.id
  pub user_id : o'.user_id ≡ o.user_id
  pub status : o'.status ≡ o.status
  pub idempotency_key : o'.idempotency_key ≡ o.idempotency_key
  pub processed_at : o'.processed_at ≡ o.processed_at
  pub items : o'.items ≡ o.items

pub record Orm : Type 0 where
  pub find_user : String → Tables → Option User
  pub find_product : String → Tables → Option Product
  pub find_order : Option String → Tables → Option Order
  pub find_order_with_items : String → Tables → Option Order
  pub find_order_by_key : String → Tables → Option Order
  pub save_product : Product → Tables → Result Tables
  pub insert_order : NewOrder → Tables → Result (Order × Tables)
  pub insert_item : NewItem → Tables → Result (OrderItem × Tables)
  pub save_order : Order → Tables → Result (Order × Tables)
  pub delete_order : String → Tables → ℕ × Tables
  pub insert_processed : Option String → Option String → Tables → Result Tables
  pub commit : Tables → Result Tables
  pub find_user_lem : (id : String) (t : Tables) → find_user id t ≡ find_by user_id id t.users
  pub find_product_lem :
      (id : String) (t : Tables) → find_product id t ≡ find_by product_id id t.products
  pub find_order_lem :
      (id : String) (t : Tables) → find_order (some id) t ≡ find_by order_id id t.orders
  pub find_order-stored :
      (id : Option String) (t : Tables) (o : Order)
      → find_order id t ≡ some o
      → find_by order_id o.id t.orders ≡ some o
  pub find_order_with_items_lem :
      (id : String) (t : Tables)
      → find_order_with_items id t ≡ join_items t (find_by order_id id t.orders)
  pub find_order_by_key_lem :
      (key : String) (t : Tables)
      → find_order_by_key key t ≡ join_items t (order_by_key key t.orders)
  pub save_product_lem :
      (p : Product) (t t' : Tables)
      → save_product p t ≡ ok t'
      → t' ≡ record t { products = replace_by product_id p t.products }
  pub insert_order_lem :
      (n : NewOrder) (t : Tables) (o : Order) (t' : Tables)
      → insert_order n t ≡ ok (o, t')
      → IsSavedOrder n o
        × (find_by order_id o.id t.orders ≡ none)
        × (t' ≡ record t { orders = o ∷ t.orders })
  pub insert_order-unique :
      (n : NewOrder) (t : Tables) (key : String) (o : Order)
      → n.idempotency_key ≡ some key
      → order_by_key key t.orders ≡ some o
      → insert_order n t ≡ err unique_violation
  pub insert_item_lem :
      (n : NewItem) (t : Tables) (item : OrderItem) (t' : Tables)
      → insert_item n t ≡ ok (item, t')
      → IsSavedItem n item × (t' ≡ record t { order_items = item ∷ t.order_items })
  pub save_order_lem :
      (o : Order) (t : Tables) (o' : Order) (t' : Tables)
      → save_order o t ≡ ok (o', t')
      → IsUpdated o o' × (t' ≡ record t { orders = replace_by order_id o' t.orders })
  pub insert_processed_lem :
      (message : Option String) (order_id : Option String) (t t' : Tables)
      → insert_processed message order_id t ≡ ok t'
      → (id : String) × (message ≡ some id)
        × (t.processed_messages id ≡ false)
        × (t' ≡ record t { processed_messages = add id t.processed_messages })
  pub insert_processed-unique :
      (id order_id : String) (t : Tables)
      → t.processed_messages id ≡ true
      → insert_processed (some id) (some order_id) t ≡ err unique_violation
  pub commit_lem : (t t' : Tables) → commit t ≡ ok t' → t' ≡ t
  pub delete_order_lem :
      (id : String) (t : Tables)
      → (((delete_order id t).0 ≡ 0) ↔ (find_by order_id id t.orders ≡ none))
        × (find_by order_id id (delete_order id t).1.orders ≡ none)
  pub delete_order-products :
      (id : String) (t : Tables) → (delete_order id t).1.products ≡ t.products
