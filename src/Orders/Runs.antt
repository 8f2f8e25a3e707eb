-- ===== src/Orders/Runs.antt =====
-- The stock over the whole life of the shop: orders that are placed, messages about them, updates and
-- deletions, one request after the other.
use nest_js_ecomm_rd.Base.{
  ℕ, String, ◌≡◌, ◌≢◌, inl, inr, refl, ap, ◌∙◌, Bool, true, false, Option, none, some, List, [],
  ◌∷◌, arith, Option-cases,
}
use nest_js_ecomm_rd.Base.Int.{ℤ, pos, ◌+ℤ◌}
use nest_js_ecomm_rd.Errors.{Result, ok, err, Result-cases}
use nest_js_ecomm_rd.Entities.{Product, Order}
use nest_js_ecomm_rd.Database.{Tables, Orm, find_by, product_id}
use nest_js_ecomm_rd.Orders.Message.{OrderProcessMessage}
use nest_js_ecomm_rd.Orders.Create.{
  CreateOrderItemDto, CreateOrderDto, Interference, Created, create, place, existing, key_of,
  recover,
}
use nest_js_ecomm_rd.Orders.Stock.{ordered, IsSold, IsSold-none, IsSold-trans}
use nest_js_ecomm_rd.Orders.Placement.{create_places, create_leaves_no_trace}
use nest_js_ecomm_rd.Orders.Process.{
  Effect, duplicate, unchanged, changed, mark_processed, in_transaction, process_order_message,
}
use nest_js_ecomm_rd.Orders.Processing.{mark_processed-changed, in_transaction-cases}
use nest_js_ecomm_rd.Orders.Manage.{
  UpdateOrderDto, assign, update_found, update_order, delete_order,
}

-- What may happen to the orders.
pub data Request : Type 0 where
  places : (uuid : String) → CreateOrderDto → Option String → Request
  processes : (now : ℕ) → OrderProcessMessage → Request
  updates : (now : ℕ) → String → UpdateOrderDto → Request
  deletes : String → Request

-- No other request comes between.
abbrev pub alone : (OrderProcessMessage → Result Bool) → Interference
alone publish = record {
  before_user = λ t. t;
  before_transaction = λ t. t;
  after_rollback = λ t. t;
  publish = publish;
}

abbrev pub taken : OrderProcessMessage → Result Bool
taken message = ok true

-- What an answer of `create` has sold of a product.
abbrev pub sold_by : String → Option (List CreateOrderItemDto) → Result (Order × Bool) → ℤ
sold_by id (some items) (ok (order, false)) = ordered id items
sold_by id _ _ = pos 0

-- `publish` is what `publishToQueue` answers or throws.
module _ (orm : Orm) (publish : OrderProcessMessage → Result Bool) (iso : ℕ → String) where
  abbrev pub serve : Request → Tables → Tables
  serve (places uuid dto key) t = (create orm (alone publish) uuid iso dto key t).tables
  serve (processes now message) t = (process_order_message orm now message t).tables
  serve (updates now id dto) t = (update_order orm now id dto t).tables
  serve (deletes id) t = (delete_order orm id t).1

  -- An order that is placed is answered as new where the message about it is taken; where `publishToQueue`
  -- throws, it is placed as well.
  abbrev pub sold : String → Request → Tables → ℤ
  sold id (places uuid dto key) t =
      sold_by id dto.items (create orm (alone taken) uuid iso dto key t).reply
  sold id _ t = pos 0

  abbrev pub serve_all : List Request → Tables → Tables
  serve_all [] t = t
  serve_all (r ∷ rs) t = serve_all rs (serve r t)

  abbrev pub sold_in_all : String → List Request → Tables → ℤ
  sold_in_all id [] t = pos 0
  sold_in_all id (r ∷ rs) t = sold id r t +ℤ sold_in_all id rs (serve r t)

  mark_processed-products :
      (now : ℕ) (message : OrderProcessMessage) (t : Tables) (effect : Effect) (t' : Tables)
      → mark_processed orm now message t ≡ ok (effect, t')
      → t'.products ≡ t.products
  unfolding mark_processed
  mark_processed-products now message t duplicate t' e = ground arith
  mark_processed-products now message t (unchanged o) t' e = ground arith
  mark_processed-products now message t (changed o) t' e =
      let (before, found, waiting, saved) = mark_processed-changed orm now message t o t' e in
      let (kept, written) = orm.save_order_lem _ t o t' saved in
      ap (λ (u : Tables). u.products) written

  process-products :
      (now : ℕ) (message : OrderProcessMessage) (t : Tables)
      → (process_order_message orm now message t).tables.products ≡ t.products
  unfolding process_order_message
  process-products now message t = elim (Result-cases (in_transaction orm now message t)) [
    | inr (x, failed) ↦ ground (arith, failed)
    | inl ((effect, t'), success) ↦
        elim (in_transaction-cases orm now message t effect t' success) [
          | inl (_, same) ↦ ground (arith, success, same)
          | inr (id, own, new, marked) ↦
              let kept = mark_processed-products now message _ effect t' marked in
              ground (arith, success, kept)
        ]
  ]

  update-products :
      (now : ℕ) (id : String) (dto : UpdateOrderDto) (t : Tables)
      → (update_order orm now id dto t).tables.products ≡ t.products
  unfolding update_order update_found
  update-products now id dto t = elim (Option-cases (orm.find_order (some id) t)) [
    | inl missing ↦ ground (arith, missing)
    | inr (order, found) ↦ elim (Result-cases (orm.save_order (assign order dto) t)) [
      | inr (x, refused) ↦ ground (arith, found, refused)
      | inl ((saved, t'), written) ↦
          let (kept, left) = orm.save_order_lem (assign order dto) t saved t' written in
          let same = ap (λ (u : Tables). u.products) left in ground (arith, found, written, same)
    ]
  ]

  deletion-products : (id : String) (t : Tables) → (delete_order orm id t).1.products ≡ t.products
  unfolding delete_order
  deletion-products id t = orm.delete_order-products id t

  -- How a product that is there stands before and after.
  abbrev pub Stands : String → ℤ → Tables → Tables → Type 0
  Stands id n t t' =
      (p : Product)
      → find_by product_id id t.products ≡ some p
      → (q : Product) × (find_by product_id id t'.products ≡ some q) × IsSold n p q

  untouched : (id : String) (t t' : Tables) → t'.products ≡ t.products → Stands id (pos 0) t t'
  untouched id t t' same p found = (p, ap (find_by product_id id) same ∙ found, IsSold-none p)

  -- What is published does not change what is stored.
  create-tables :
      (uuid : String) (dto : CreateOrderDto) (key : Option String) (t : Tables)
      → (create orm (alone publish) uuid iso dto key t).tables
        ≡ (create orm (alone taken) uuid iso dto key t).tables
  unfolding create place recover
  create-tables uuid dto key t = elim (Option-cases (existing orm (key_of key dto) t)) [
    | inr (stored, known) ↦ ground arith
    | inl unknown ↦ let same = go dto.items refl in ground (arith, unknown, same)
  ]
    where
      go :
          (items : Option (List CreateOrderItemDto))
          → dto.items ≡ items
          → (place orm (alone publish) uuid iso dto (key_of key dto) t).tables
            ≡ (place orm (alone taken) uuid iso dto (key_of key dto) t).tables
      go none e = ground arith
      go (some []) e = ground arith
      go (some (item ∷ items)) e = ground arith

  create-Stands :
      (id uuid : String) (dto : CreateOrderDto) (key : Option String) (t : Tables)
      → let made = create orm (alone taken) uuid iso dto key t in
        Stands id (sold_by id dto.items made.reply) t made.tables
  unfolding create place
  create-Stands id uuid dto key t =
      go dto.items refl (create orm (alone taken) uuid iso dto key t).reply refl
    where
      made : Created
      made = create orm (alone taken) uuid iso dto key t

      left : ((o : Order) → made.reply ≢ ok (o, false)) → made.tables ≡ t
      left other = elim (create_leaves_no_trace orm (alone taken) uuid iso dto key t other) [
        | inl (inl same, _) ↦ same
        | inl (inr (inl same), _) ↦ same
        | inl (inr (inr same), _) ↦ same
        | inr (order, items, error, given, placed, threw, _, _) ↦ absurd (cc)
      ]

      unsold : ((o : Order) → made.reply ≢ ok (o, false)) → Stands id (pos 0) t made.tables
      unsold other = untouched id t made.tables (ap (λ (u : Tables). u.products) (left other))

      go :
          (items : Option (List CreateOrderItemDto))
          → dto.items ≡ items
          → (reply : Result (Order × Bool)) → made.reply ≡ reply
          → Stands id (sold_by id items reply) t made.tables
      go none given (err x) answered = unsold (λ o e. cc)
      go (some items) given (err x) answered = unsold (λ o e. cc)
      go none given (ok (o, true)) answered = unsold (λ o' e. ground (arith, answered, e))
      go (some items) given (ok (o, true)) answered = unsold (λ o' e. ground (arith, answered, e))
      go none given (ok (o, false)) answered = absurd (ground (arith, given, answered))
      go (some items) given (ok (o, false)) answered =
          (create_places orm (alone taken) uuid iso dto key t o items given answered).0.sold id

  serve-Stands : (id : String) (r : Request) (t : Tables) → Stands id (sold id r t) t (serve r t)
  serve-Stands id (places uuid dto key) t = λ p found.
      let (q, there, less) = create-Stands id uuid dto key t p found in
      (q, ap (λ u. find_by product_id id u.products) (create-tables uuid dto key t) ∙ there, less)
  serve-Stands id (processes now message) t =
      untouched id t (serve (processes now message) t) (process-products now message t)
  serve-Stands id (updates now key dto) t =
      untouched id t (serve (updates now key dto) t) (update-products now key dto t)
  serve-Stands id (deletes key) t = untouched id t (serve (deletes key) t) (deletion-products key t)

  -- Over any requests, one after the other, the stock of a product and what the orders that were placed have
  -- taken of it add up to the stock at the beginning; a stock that was not negative never becomes so; and
  -- nothing else of the product changes.
  pub serve_all-IsSold :
      (id : String) (rs : List Request) (t : Tables) (p : Product)
      → find_by product_id id t.products ≡ some p
      → (q : Product) × (find_by product_id id (serve_all rs t).products ≡ some q)
        × IsSold (sold_in_all id rs t) p q
  serve_all-IsSold id [] t p found = (p, found, IsSold-none p)
  serve_all-IsSold id (r ∷ rs) t p found =
      let (q, there, first) = serve-Stands id r t p found in
      let (last, in_the_end, rest) = serve_all-IsSold id rs (serve r t) q there in
      (last, in_the_end, IsSold-trans first rest)
