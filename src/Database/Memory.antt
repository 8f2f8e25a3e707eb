-- ===== src/Database/Memory.antt =====
-- An in-memory database that obeys the laws. A new row takes the identifier `fresh`, and is refused
-- where that is in use.
use nest_js_ecomm_rd.Base.{
  ℕ, String, ◌≡◌, refl, sym, subst, ◌↔◌, Bool, true, false, Option, none, some, List, [], ◌∷◌,
  arith, if◌then◌else◌, str_eq, eq_iff, eq_refl, filterb, not, is_some, add,
}
use nest_js_ecomm_rd.Errors.{driver, Result, ok, err}
use nest_js_ecomm_rd.Entities.{Product, Order, OrderItem}
use nest_js_ecomm_rd.Database.Schema.{
  Tables, Orm, NewOrder, NewItem, find_by, find_by-key, replace_by, user_id, product_id, order_id,
  order_by_key, join_items, unique_violation, IsSavedOrder, IsSavedItem, IsUpdated,
}

module _ (fresh : String) where
  abbrev pub to_order : NewOrder → Order
  to_order n = record {
    id = fresh;
    user_id = n.user_id;
    items = [];
    status = n.status;
    idempotency_key = n.idempotency_key;
    created_at = 0;
    updated_at = 0;
    processed_at = none;
  }

  abbrev pub to_item : NewItem → OrderItem
  to_item n = record {
    id = fresh;
    order_id = n.order_id;
    product_id = n.product_id;
    quantity = n.quantity;
    price_snapshot = n.price_snapshot;
  }

  abbrev pub key_taken : Option String → Tables → Bool
  key_taken none t = false
  key_taken (some key) t = is_some (order_by_key key t.orders)

  unfoldable pub insert_order : NewOrder → Tables → Result (Order × Tables)
  insert_order n t =
      if key_taken n.idempotency_key t
      then err unique_violation
      else if is_some (find_by order_id fresh t.orders)
      then err unique_violation
      else ok (to_order n, record t { orders = to_order n ∷ t.orders })

  unfoldable pub insert_processed : Option String → Option String → Tables → Result Tables
  insert_processed none order t = err (driver (some "23502"))
  insert_processed (some id) none t = err (driver (some "23502"))
  insert_processed (some id) (some order) t =
      if t.processed_messages id
      then err unique_violation
      else ok (record t { processed_messages = add id t.processed_messages })

  abbrev pub without : String → List Order → List Order
  without id orders = filterb (λ o. not (str_eq o.id id)) orders

  find_by-without :
      (id : String) (orders : List Order) → find_by order_id id (without id orders) ≡ none
  find_by-without id [] = refl
  find_by-without id (o ∷ os) = ground (arith, find_by-without id os)

  unfoldable pub delete_order : String → Tables → ℕ × Tables
  delete_order id t = (
    if is_some (find_by order_id id t.orders) then 1 else 0,
    record t { orders = without id t.orders },
  )

  pub insert_order-saves :
      (n : NewOrder) (t : Tables) (o : Order) (t' : Tables)
      → insert_order n t ≡ ok (o, t')
      → IsSavedOrder n o
        × (find_by order_id o.id t.orders ≡ none)
        × (t' ≡ record t { orders = o ∷ t.orders })
  unfolding insert_order
  insert_order-saves n t o t' e = ground arith

  pub insert_order-taken :
      (n : NewOrder) (t : Tables) (key : String) (o : Order)
      → n.idempotency_key ≡ some key
      → order_by_key key t.orders ≡ some o
      → insert_order n t ≡ err unique_violation
  unfolding insert_order
  insert_order-taken n t key o e found = ground arith

  pub insert_processed-adds :
      (message : Option String) (order : Option String) (t t' : Tables)
      → insert_processed message order t ≡ ok t'
      → (id : String) × (message ≡ some id)
        × (t.processed_messages id ≡ false)
        × (t' ≡ record t { processed_messages = add id t.processed_messages })
  unfolding insert_processed
  insert_processed-adds none order t t' e = absurd (ground arith)
  insert_processed-adds (some id) none t t' e = absurd (ground arith)
  insert_processed-adds (some id) (some order) t t' e = (id, refl, ground arith, ground arith)

  abbrev first : List Order → Option Order
  first [] = none
  first (o ∷ os) = some o

  first-found :
      (orders : List Order) (o : Order)
      → first orders ≡ some o
      → find_by order_id o.id orders ≡ some o
  first-found [] o e = cc
  first-found (r ∷ rs) o e = ground (arith, eq_iff r.id o.id, eq_refl r.id)

  -- `findOne` with an undefined `id` takes any row.
  abbrev pub find_order : Option String → Tables → Option Order
  find_order none t = first t.orders
  find_order (some id) t = find_by order_id id t.orders

  found_again :
      (id : String) (orders : List Order) (o : Order)
      → find_by order_id id orders ≡ some o
      → find_by order_id o.id orders ≡ some o
  found_again id orders o e =
      subst (λ k. find_by order_id k orders ≡ some o) (sym (find_by-key order_id id orders o e)) e

  pub find_order-found :
      (id : Option String) (t : Tables) (o : Order)
      → find_order id t ≡ some o
      → find_by order_id o.id t.orders ≡ some o
  find_order-found none t o e = first-found t.orders o e
  find_order-found (some id) t o e = found_again id t.orders o e

  pub insert_processed-taken :
      (id order : String) (t : Tables)
      → t.processed_messages id ≡ true
      → insert_processed (some id) (some order) t ≡ err unique_violation
  unfolding insert_processed
  insert_processed-taken id order t e = ground arith

  pub delete_order_keeps : (id : String) (t : Tables) → (delete_order id t).1.products ≡ t.products
  unfolding delete_order
  delete_order_keeps id t = refl

  pub delete_order-deletes :
      (id : String) (t : Tables)
      → (((delete_order id t).0 ≡ 0) ↔ (find_by order_id id t.orders ≡ none))
        × (find_by order_id id (delete_order id t).1.orders ≡ none)
  unfolding delete_order
  delete_order-deletes id t = (ground arith, find_by-without id t.orders)

  abbrev pub save_product : Product → Tables → Result Tables
  save_product p t = ok (record t { products = replace_by product_id p t.products })

  abbrev pub insert_item : NewItem → Tables → Result (OrderItem × Tables)
  insert_item n t = ok (to_item n, record t { order_items = to_item n ∷ t.order_items })

  abbrev pub save_order : Order → Tables → Result (Order × Tables)
  save_order o t = ok (o, record t { orders = replace_by order_id o t.orders })

  pub save_product-replaces :
      (p : Product) (t t' : Tables)
      → save_product p t ≡ ok t'
      → t' ≡ record t { products = replace_by product_id p t.products }
  save_product-replaces p t t' e = cc

  pub insert_item-saves :
      (n : NewItem) (t : Tables) (item : OrderItem) (t' : Tables)
      → insert_item n t ≡ ok (item, t')
      → IsSavedItem n item × (t' ≡ record t { order_items = item ∷ t.order_items })
  insert_item-saves n t item t' e = ground arith

  pub save_order-replaces :
      (o : Order) (t : Tables) (o' : Order) (t' : Tables)
      → save_order o t ≡ ok (o', t')
      → IsUpdated o o' × (t' ≡ record t { orders = replace_by order_id o' t.orders })
  save_order-replaces o t o' t' e = ground arith

  pub commit-keeps : (t t' : Tables) → ok t ≡ ok t' → t' ≡ t
  commit-keeps t t' e = cc

  unfoldable pub memory : Orm
  unfolding insert_order insert_processed delete_order
  memory = record {
    find_user = λ id t. find_by user_id id t.users;
    find_product = λ id t. find_by product_id id t.products;
    find_order = find_order;
    find_order_with_items = λ id t. join_items t (find_by order_id id t.orders);
    find_order_by_key = λ key t. join_items t (order_by_key key t.orders);
    save_product = save_product;
    insert_order = insert_order;
    insert_item = insert_item;
    save_order = save_order;
    delete_order = delete_order;
    insert_processed = insert_processed;
    commit = ok;
    find_user_lem = λ id t. refl;
    find_product_lem = λ id t. refl;
    find_order_lem = λ id t. refl;
    find_order-stored = find_order-found;
    find_order_with_items_lem = λ id t. refl;
    find_order_by_key_lem = λ key t. refl;
    save_product_lem = save_product-replaces;
    insert_order_lem = insert_order-saves;
    insert_order-unique = insert_order-taken;
    insert_item_lem = insert_item-saves;
    save_order_lem = save_order-replaces;
    insert_processed_lem = insert_processed-adds;
    insert_processed-unique = insert_processed-taken;
    commit_lem = commit-keeps;
    delete_order_lem = delete_order-deletes;
    delete_order-products = delete_order_keeps;
  }
