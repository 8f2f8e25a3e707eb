-- ===== src/Seeds/Laws.antt =====
-- The seed finds the products that it has just written, and so ends well.
use nest_js_ecomm_rd.Base.{
  String, ◌≡◌, ◌≢◌, refl, ap, ◌∙◌, inl, inr, true, Option, none, some, List, [], ◌∷◌, ◌++◌, map,
  arith, str_eq, eq_iff, Map, empty_map, set, is_some, includes, All, Option-cases, Bool-cases,
}
use nest_js_ecomm_rd.Base.Int.{pos}
use nest_js_ecomm_rd.Errors.{Result, ok}
use nest_js_ecomm_rd.Entities.{User, Product, OrderItem}
use nest_js_ecomm_rd.Database.{find_by}
use nest_js_ecomm_rd.Seeds.Data.{
  users_seed, products_seed, product_names, ItemSeed, OrderSeed, orders_seed,
}
use nest_js_ecomm_rd.Seeds.Run.{
  SeededOrder, user_email, product_name, SeedDatabase, index_by, prepare_items, prepare, Seeded,
  with_hash, write, seed_orders, seed,
}

index_by-keeps :
    {A : Type 0} (key : A → String) (rows : List A) (m : Map A) (k : String)
    → is_some (m k) ≡ true
    → is_some (index_by key rows m k) ≡ true
index_by-keeps key [] m k h = h
index_by-keeps key (row ∷ rows) m k h =
    index_by-keeps key rows (set (key row) row m) k (elim (Bool-cases (str_eq (key row) k)) [
      | inl same ↦ ground (arith, same)
      | inr other ↦ ground (arith, other, h)
    ])

-- A row that is in the list is in the index.
index_by-find_by :
    {A : Type 0} (key : A → String) (rows : List A) (m : Map A) (k : String)
    → is_some (find_by key k rows) ≡ true
    → is_some (index_by key rows m k) ≡ true
index_by-find_by key [] m k h = absurd (cc)
index_by-find_by key (row ∷ rows) m k h = elim (Bool-cases (str_eq (key row) k)) [
  | inl same ↦ index_by-keeps key rows (set (key row) row m) k (ground (arith, same))
  | inr other ↦ index_by-find_by key rows (set (key row) row m) k (ground (arith, other, h))
]

-- A row of the index has its key.
index_by-key :
    {A : Type 0} (key : A → String) (rows : List A) (m : Map A)
    → ((k : String) (row : A) → m k ≡ some row → key row ≡ k)
    → (k : String) (row : A) → index_by key rows m k ≡ some row
    → key row ≡ k
index_by-key key [] m keyed k row h = keyed k row h
index_by-key key (r ∷ rows) m keyed k row h =
    index_by-key key rows (set (key r) r m)
      (λ j found e. elim (Bool-cases (str_eq (key r) j)) [
        | inl same ↦ ground (arith, same, e, eq_iff (key r) j)
        | inr other ↦ keyed j found (ground (arith, other, e))
      ])
      k row h

-- The row is the one of the item, of the order with the identifier: it is about the product that was read under
-- the name of the item, at the price of the product.
abbrev pub IsRowOf : Map Product → String × ItemSeed → OrderItem → Type 0
IsRowOf products (order_id, item) row =
    (product : Product) × (products item.product_name ≡ some product)
    × (product.name ≡ item.product_name)
    × (row ≡ record {
      id = item.id;
      order_id = order_id;
      product_id = product.id;
      quantity = pos item.quantity;
      price_snapshot = product.price;
    })

-- The row is the one of the order, for the user that was read under its email.
abbrev pub IsOrderOf : Map User → OrderSeed → SeededOrder → Type 0
IsOrderOf users order row =
    (user : User) × (users order.user_email ≡ some user)
    × (user.email ≡ order.user_email)
    × (row ≡ record { id = order.id; user_id = user.id })

-- One row for each, in their order.
abbrev pub Each : {A B : Type 0} → (A → B → Type 0) → List A → List B → Type 0
Each P [] [] = Unit
Each P (x ∷ xs) (y ∷ ys) = P x y × Each P xs ys
Each P [] (_ ∷ _) = ⊥
Each P (_ ∷ _) [] = ⊥

Each-append :
    {A B : Type 0} (P : A → B → Type 0) (xs xs' : List A) (ys ys' : List B)
    → Each P xs ys
    → Each P xs' ys'
    → Each P (xs ++ xs') (ys ++ ys')
Each-append P [] xs' [] ys' each each' = each'
Each-append P (x ∷ xs) xs' (y ∷ ys) ys' (own, each) each' =
    (own, Each-append P xs xs' ys ys' each each')
Each-append P [] xs' (_ ∷ _) ys' each each' = elim each [ ]
Each-append P (_ ∷ _) xs' [] ys' each each' = elim each [ ]

abbrev pub of_order : String → List ItemSeed → List (String × ItemSeed)
of_order id [] = []
of_order id (item ∷ items) = (id, item) ∷ of_order id items

-- The items of the orders, with the identifiers of their orders.
abbrev pub items_of_all : List OrderSeed → List (String × ItemSeed)
items_of_all [] = []
items_of_all (order ∷ orders) = of_order order.id order.items ++ items_of_all orders

abbrev IsStocked : Map Product → List ItemSeed → Type 0
IsStocked products items = All (λ item. is_some (products item.product_name) ≡ true) items

module _ (products : Map Product)
    (named : (name : String) (product : Product)
      → products name ≡ some product
      → product.name ≡ name) where
  prepare_items-IsRowOf :
      (id : String) (items : List ItemSeed)
      → IsStocked products items
      → (rows : List OrderItem) × (prepare_items products id items ≡ ok rows)
        × Each (IsRowOf products) (of_order id items) rows
  unfolding prepare_items
  prepare_items-IsRowOf id [] all = ([], refl, tt)
  prepare_items-IsRowOf id (item ∷ items) (there, all) =
      let (rows, same, found) = prepare_items-IsRowOf id items all in
      elim (Option-cases (products item.product_name)) [
        | inl missing ↦ absurd (ground (arith, missing))
        | inr (product, given) ↦
            let row : OrderItem = record {
              id = item.id;
              order_id = id;
              product_id = product.id;
              quantity = pos item.quantity;
              price_snapshot = product.price;
            } in
            (
              row ∷ rows,
              ground (arith, given, same),
              ((product, given, named item.product_name product given, refl), found),
            )
      ]

  module _ (users : Map User)
      (mailed : (email : String) (user : User) → users email ≡ some user → user.email ≡ email) where
    -- What `prepare` gives, where the products and the users are there.
    prepare-Each :
        (orders : List OrderSeed)
        → All (λ order. IsStocked products order.items) orders
        → All (λ order. is_some (users order.user_email) ≡ true) orders
        → (os : List SeededOrder) × (rows : List OrderItem) × (prepare users products orders
            ≡ ok (os, rows))
          × Each (IsOrderOf users) orders os
          × Each (IsRowOf products) (items_of_all orders) rows
    unfolding prepare
    prepare-Each [] all known = ([], [], refl, tt, tt)
    prepare-Each (order ∷ orders) (there, all) (known, others) =
        let (os, rows, same, placed, found) = prepare-Each orders all others in
        let (items, same_items, items_found) = prepare_items-IsRowOf order.id order.items there in
        elim (Option-cases (users order.user_email)) [
          | inl missing ↦ absurd (ground (arith, missing))
          | inr (user, given) ↦ (
            record { id = order.id; user_id = user.id } ∷ os,
            items ++ rows,
            ground (arith, given, same_items, same),
            ((user, given, mailed order.user_email user given, refl), placed),
            Each-append (IsRowOf products) (of_order order.id order.items) (items_of_all orders)
                items rows items_found found,
          )
        ]

module _ {S : Type 0} (db : SeedDatabase S) (hash : String → String) where
  abbrev pub users_of : S → Map User
  users_of s = index_by user_email (db.find_users (map (λ user. user.email) users_seed) s) empty_map

  abbrev pub products_of : S → Map Product
  products_of s = index_by product_name (db.find_products product_names s) empty_map

  abbrev Works : {X : Type 0} → (X → S → Result S) → Type 0
  Works {X = X} statement = (x : X) (t : S) → (t' : S) × (statement x t ≡ ok t')

  -- What was written after the products and users were read from `read`: both orders with their users, and
  -- then their four items.
  pub record IsSeeded (read after : S) : Type 0 where
    pub orders : List SeededOrder
    pub rows : List OrderItem
    pub between : S
    pub writes_orders : db.upsert_orders orders read ≡ ok between
    pub writes_items : db.upsert_items rows between ≡ ok after
    pub each_order : Each (IsOrderOf (users_of read)) orders_seed orders
    pub each_item : Each (IsRowOf (products_of read)) (items_of_all orders_seed) rows

  -- The last two statements.
  write-IsSeeded :
      (orders : List SeededOrder) (rows : List OrderItem) (s : S)
      → Each (IsOrderOf (users_of s)) orders_seed orders
      → Each (IsRowOf (products_of s)) (items_of_all orders_seed) rows
      → Works db.upsert_orders
      → Works db.upsert_items
      → (after : S) × (write db (ok (orders, rows)) s ≡ record { database = after; result = ok tt })
        × IsSeeded s after
  write-IsSeeded [] rows s each each' works_orders works_items = elim each [ ]
  write-IsSeeded (order ∷ orders) [] s each each' works_orders works_items = elim each' [ ]
  write-IsSeeded (order ∷ orders) (row ∷ rows) s each each' works_orders works_items =
      let (t, first) = works_orders (order ∷ orders) s in
      let (t', second) = works_items (row ∷ rows) t in
      (
        t',
        ground (arith, first, second),
        record {
          orders = order ∷ orders;
          rows = row ∷ rows;
          between = t;
          writes_orders = first;
          writes_items = second;
          each_order = each;
          each_item = each';
        },
      )

  seed_orders-IsSeeded :
      (s : S)
      → All (λ order. IsStocked (products_of s) order.items) orders_seed
      → All (λ order. is_some (users_of s order.user_email) ≡ true) orders_seed
      → Works db.upsert_orders
      → Works db.upsert_items
      → (after : S) × (seed_orders db s ≡ record { database = after; result = ok tt })
        × IsSeeded s after
  unfolding seed_orders
  seed_orders-IsSeeded s stocked known works_orders works_items =
      let (orders, rows, same, each, each') =
        prepare-Each (products_of s)
          (index_by-key product_name (db.find_products product_names s) empty_map (λ k row e. cc))
          (users_of s)
          (index_by-key user_email (db.find_users (map (λ user. user.email) users_seed) s) empty_map
            (λ k row e. cc))
          orders_seed stocked known in
      let (after, written, seeded) =
        write-IsSeeded orders rows s each each' works_orders works_items in
      (after, ap (λ r. write db r s) same ∙ written, seeded)

  seed_dev :
      (node_env : Option String) (s t t' : S) (end : Seeded S)
      → node_env ≢ some "production"
      → db.upsert_users (map (with_hash hash) users_seed) s ≡ ok t
      → db.upsert_products products_seed t ≡ ok t'
      → seed_orders db t' ≡ end
      → seed db hash node_env s ≡ end
  unfolding seed
  seed_dev none s t t' end dev first second ends = ground (arith, first, second, ends)
  seed_dev (some env) s t t' end dev first second ends =
      elim (Bool-cases (str_eq env "production")) [
        | inl same ↦ absurd (dev (ap some (ground (arith, same, eq_iff env "production"))))
        | inr other ↦ ground (arith, other, first, second, ends)
      ]

  -- Outside production, and where each statement succeeds, the seed ends without an error: after the users and
  -- the products it writes each order of the seed for the user that is read under its email, and then each item
  -- of the orders, with its identifier and quantity, of the product that is read under its own name and at the
  -- price of that product.
  pub seed_finishes :
      (node_env : Option String) (s : S)
      → node_env ≢ some "production"
      → Works db.upsert_users
      → Works db.upsert_products
      → Works db.upsert_orders
      → Works db.upsert_items
      → (with_users read after : S) × (db.upsert_users (map (with_hash hash) users_seed) s
          ≡ ok with_users)
        × (db.upsert_products products_seed with_users ≡ ok read)
        × (seed db hash node_env s ≡ record { database = after; result = ok tt })
        × IsSeeded read after
  seed_finishes node_env s dev works_users works_products works_orders works_items =
      let (t, first) = works_users (map (with_hash hash) users_seed) s in
      let (t', second) = works_products products_seed t in
      let product_there = λ (name : String) (listed : includes product_names name ≡ true).
        index_by-find_by product_name (db.find_products product_names t') empty_map name
          (db.upsert_products_lem products_seed t t' name second listed) in
      let user_there =
        λ (email : String) (listed : includes (map (λ user. user.email) users_seed) email ≡ true).
          index_by-find_by user_email (db.find_users (map (λ user. user.email) users_seed) t')
            empty_map email
            (ap (λ users. is_some (find_by user_email email users))
                (db.find_users-upsert_products (map (λ user. user.email) users_seed) products_seed t
                  t' second)
              ∙ db.upsert_users_lem (map (with_hash hash) users_seed) s t email first listed) in
      let (after, ends, seeded) =
        seed_orders-IsSeeded t'
          (
            (product_there "Coffee Mug" refl, (product_there "Mechanical Keyboard" refl, tt)),
            ((product_there "Notebook" refl, (product_there "Wireless Mouse" refl, tt)), tt),
          )
          (user_there "alice@example.com" refl, (user_there "bob@example.com" refl, tt))
          works_orders works_items in
      (t, t', after, first, second, seed_dev node_env s t t' _ dev first second ends, seeded)
