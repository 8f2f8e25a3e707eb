-- ===== src/Seeds/Memory.antt =====
-- A database on lists that obeys the laws of `SeedDatabase`. An upserted row stands first, and takes the
-- place of the rows with its email or name; its identifier is made of that.
use nest_js_ecomm_rd.Base.{
  String, ◌≡◌, refl, sym, ap, subst, ◌∙◌, inl, inr, true, not, none, some, List, [], ◌∷◌, ◌++◌, map,
  arith, str_eq, eq_iff, is_some, includes, filterb, Bool-cases,
}
use nest_js_ecomm_rd.Base.Int.{pos}
use nest_js_ecomm_rd.Errors.{ok, ok-injective}
use nest_js_ecomm_rd.Entities.{User, Product, OrderItem}
use nest_js_ecomm_rd.Database.{find_by}
use nest_js_ecomm_rd.Seeds.Data.{ProductSeed}
use nest_js_ecomm_rd.Seeds.Run.{
  SeededUser, SeededOrder, user_email, product_name, emails_of, names_of, SeedDatabase,
}

pub record Store : Type 0 where
  pub users : List User
  pub products : List Product
  pub orders : List SeededOrder
  pub items : List OrderItem

abbrev to_user : SeededUser → User
to_user seeded = record {
  id = seeded.email;
  email = seeded.email;
  password_hash = some seeded.password_hash;
  roles = seeded.roles;
  scopes = seeded.scopes;
  avatar_file_id = none;
}

abbrev to_product : ProductSeed → Product
to_product seeded = record {
  id = seeded.name;
  name = seeded.name;
  sku = seeded.name;
  description = seeded.description;
  price = seeded.price;
  stock = pos seeded.stock;
  is_active = seeded.is_active;
  image_file_id = none;
}

module _ {Row Given : Type 0} (key : Row → String) (name : Given → String)
    (make : Given → Row) where
  abbrev listed : List String → List Row → List Row
  listed names rows = filterb (λ row. includes names (key row)) rows

  abbrev upsert : List Given → List Row → List Row
  upsert given rows =
      map make given ++ filterb (λ row. not (includes (map name given) (key row))) rows

  find_by-listed :
      (names : List String) (k : String) (rows : List Row)
      → includes names k ≡ true
      → is_some (find_by key k rows) ≡ true
      → is_some (find_by key k (listed names rows)) ≡ true
  find_by-listed names k [] wanted h = absurd (cc)
  find_by-listed names k (row ∷ rows) wanted h = elim (Bool-cases (str_eq (key row) k)) [
    | inl same ↦
        let named : key row ≡ k = ground (arith, same, eq_iff (key row) k) in
        let kept : includes names (key row) ≡ true = ap (includes names) named ∙ wanted in
        ground (arith, kept, same)
    | inr other ↦
        let rest = find_by-listed names k rows wanted (ground (arith, other, h)) in
        ground (arith, other, rest)
  ]

  module _ (makes : (g : Given) → key (make g) ≡ name g) where
    find_by-made :
        (given : List Given) (k : String) (rest : List Row)
        → includes (map name given) k ≡ true
        → is_some (find_by key k (map make given ++ rest)) ≡ true
    find_by-made [] k rest h = absurd (cc)
    find_by-made (g ∷ given) k rest h =
        let same = makes g in
        elim (Bool-cases (str_eq (name g) k)) [
          | inl here ↦ ground (arith, here, same)
          | inr there ↦
              let later = find_by-made given k rest (ground (arith, there, h)) in
              ground (arith, there, same, later)
        ]

    pub listed-upsert :
        (given : List Given) (k : String) (rows : List Row)
        → includes (map name given) k ≡ true
        → is_some (find_by key k (listed (map name given) (upsert given rows))) ≡ true
    listed-upsert given k rows h =
        find_by-listed (map name given) k (upsert given rows) h (find_by-made given k _ h)

abbrev pub seed_store : SeedDatabase Store
seed_store = record {
  upsert_users =
      λ users s. ok (record s { users = upsert user_email (λ u. u.email) to_user users s.users });
  upsert_products = λ products s.
      ok (record s { products = upsert product_name (λ p. p.name) to_product products s.products });
  upsert_orders = λ orders s. ok (record s { orders = orders });
  upsert_items = λ items s. ok (record s { items = items });
  find_users = λ emails s. listed user_email (λ u. u.email) to_user emails s.users;
  find_products = λ names s. listed product_name (λ p. p.name) to_product names s.products;
  upsert_users_lem = λ users s s' email h wanted.
      subst
        (λ (t : Store).
          is_some (
            find_by user_email email
              (listed user_email (λ u. u.email) to_user (emails_of users) t.users))
          ≡ true)
        (ok-injective h)
        (listed-upsert user_email (λ u. u.email) to_user (λ g. refl) users email s.users wanted);
  find_users-upsert_products = λ emails products s s' h. sym (
      ap (λ (t : Store). listed user_email (λ u. u.email) to_user emails t.users) (ok-injective h));
  upsert_products_lem = λ products s s' name h wanted.
      subst
        (λ (t : Store).
          is_some (
            find_by product_name name
              (listed product_name (λ p. p.name) to_product (names_of products) t.products))
          ≡ true)
        (ok-injective h)
        (listed-upsert product_name (λ p. p.name) to_product (λ g. refl) products name s.products
          wanted);
}
