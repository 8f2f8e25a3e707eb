-- ===== src/Seeds/Run.antt =====
-- `seed`: what is written, in which order, and where it stops. TypeORM's `upsert` and `find` are the record
-- `SeedDatabase`; bcrypt's `hash` is an argument. Each statement is a transaction of its own; connecting and
-- disconnecting are left out.
use nest_js_ecomm_rd.Base.{
  String, ◌≡◌, true, Option, none, some, List, [], ◌∷◌, ◌++◌, map, if◌then◌else◌, str_eq, Map,
  empty_map, set, is_some, includes,
}
use nest_js_ecomm_rd.Base.Int.{pos}
use nest_js_ecomm_rd.Errors.{internal, Result, ok, err, ◌>>=◌}
use nest_js_ecomm_rd.Entities.{User, Product, OrderItem}
use nest_js_ecomm_rd.Database.{find_by}
use nest_js_ecomm_rd.Seeds.Data.{
  UserSeed, users_seed, ProductSeed, products_seed, product_names, ItemSeed, OrderSeed, orders_seed,
}
use Prim.Native.String.{◌++◌ as concat}

-- `usersWithHash`
pub record SeededUser : Type 0 where
  pub email : String
  pub password_hash : String
  pub roles : List String
  pub scopes : List String

abbrev pub with_hash : (String → String) → UserSeed → SeededUser
with_hash hash user = record {
  email = user.email;
  password_hash = hash user.password;
  roles = user.roles;
  scopes = user.scopes;
}

-- `ordersToUpsert`
pub record SeededOrder : Type 0 where
  pub id : String
  pub user_id : String

abbrev pub user_email : User → String
user_email user = user.email

abbrev pub product_name : Product → String
product_name product = product.name

abbrev pub emails_of : List SeededUser → List String
emails_of users = map (λ user. user.email) users

abbrev pub names_of : List ProductSeed → List String
names_of products = map (λ product. product.name) products

-- An upserted row is found again by what it was given.
pub record SeedDatabase (S : Type 0) : Type 0 where
  pub upsert_users : List SeededUser → S → Result S
  pub upsert_products : List ProductSeed → S → Result S
  pub upsert_orders : List SeededOrder → S → Result S
  pub upsert_items : List OrderItem → S → Result S
  pub find_users : List String → S → List User
  pub find_products : List String → S → List Product
  pub upsert_users_lem :
      (users : List SeededUser) (s s' : S) (email : String)
      → upsert_users users s ≡ ok s'
      → includes (emails_of users) email ≡ true
      → is_some (find_by user_email email (find_users (emails_of users) s')) ≡ true
  pub find_users-upsert_products :
      (emails : List String) (products : List ProductSeed) (s s' : S)
      → upsert_products products s ≡ ok s'
      → find_users emails s' ≡ find_users emails s
  pub upsert_products_lem :
      (products : List ProductSeed) (s s' : S) (name : String)
      → upsert_products products s ≡ ok s'
      → includes (names_of products) name ≡ true
      → is_some (find_by product_name name (find_products (names_of products) s')) ≡ true

-- `new Map(rows.map((row) => [key(row), row]))`, after other entries.
abbrev pub index_by : {A : Type 0} → (A → String) → List A → Map A → Map A
index_by key [] m = m
index_by key (row ∷ rows) m = index_by key rows (set (key row) row m)

-- The items of one order of the seed.
unfoldable pub prepare_items : Map Product → String → List ItemSeed → Result (List OrderItem)
prepare_items products order_id [] = ok []
prepare_items products order_id (item ∷ items) =
    let rest = prepare_items products order_id items in
    elim (products item.product_name) [
      | none ↦ err (internal (concat "Missing product: " item.product_name))
      | some product ↦ rest >>= λ rows. ok (
          record {
            id = item.id;
            order_id = order_id;
            product_id = product.id;
            quantity = pos item.quantity;
            price_snapshot = product.price;
          }
          ∷ rows)
    ]

-- The loop over the orders: those of a user that is not there are passed over.
unfoldable pub prepare :
    Map User → Map Product → List OrderSeed → Result (List SeededOrder × List OrderItem)
unfolding prepare_items
prepare users products [] = ok ([], [])
prepare users products (order ∷ orders) =
    let rest = prepare users products orders in
    elim (users order.user_email) [
      | none ↦ rest
      | some user ↦ prepare_items products order.id order.items >>= λ items. rest >>= λ others.
          ok (record { id = order.id; user_id = user.id } ∷ others.0, items ++ others.1)
    ]

-- How the seed ends: the database that it leaves, and what it throws.
pub record Seeded (S : Type 0) : Type 0 where
  pub database : S
  pub result : Result (Unit {0})

-- `await`: a statement that fails leaves the database as it was, and the seed ends.
abbrev pub and_then : {S : Type 0} → Result S → S → (S → Seeded S) → Seeded S
and_then (err error) s next = record { database = s; result = err error }
and_then (ok s') s next = next s'

module _ {S : Type 0} (db : SeedDatabase S) where
  abbrev pub upsert_orders_if_any : List SeededOrder → S → Result S
  upsert_orders_if_any [] s = ok s
  upsert_orders_if_any (order ∷ orders) s = db.upsert_orders (order ∷ orders) s

  abbrev pub upsert_items_if_any : List OrderItem → S → Result S
  upsert_items_if_any [] s = ok s
  upsert_items_if_any (item ∷ items) s = db.upsert_items (item ∷ items) s

  -- The last two statements.
  abbrev pub write : Result (List SeededOrder × List OrderItem) → S → Seeded S
  write (err error) s = record { database = s; result = err error }
  write (ok (orders, items)) s = and_then (upsert_orders_if_any orders s) s (λ s'.
      and_then (upsert_items_if_any items s') s' (λ s''. record { database = s''; result = ok tt }))

  -- From the read of the users on.
  unfoldable pub seed_orders : S → Seeded S
  unfolding prepare
  seed_orders s =
      let users = db.find_users (map (λ user. user.email) users_seed) s in
      let products = db.find_products product_names s in
      write
        (prepare (index_by user_email users empty_map) (index_by product_name products empty_map)
          orders_seed)
        s

  unfoldable pub seed : (String → String) → Option String → S → Seeded S
  seed hash node_env s =
      let refused : Seeded S = record {
        database = s;
        result = err (internal "Seeding is disabled in production");
      } in
      let seeded =
        and_then (db.upsert_users (map (with_hash hash) users_seed) s) s
          (λ s'. and_then (db.upsert_products products_seed s') s' seed_orders) in
      elim node_env [
        | none ↦ seeded
        | some env ↦ if str_eq env "production" then refused else seeded
      ]
