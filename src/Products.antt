-- ===== src/Products.antt =====
-- src/products: `ProductsService`, `ProductsController`, which passes on to it, and the batch loader of
-- src/graphql/dataloaders.
pub mod Laws
pub mod Loader
mod Resolver
mod Tests
use nest_js_ecomm_rd.Base.{
  ℕ, String, ◌≡◌, Bool, true, Option, none, some, List, get_or, ◌==◌, Number,
}
use nest_js_ecomm_rd.Base.Int.{ℤ, pos}
use nest_js_ecomm_rd.Errors.{not_found, Result, ok, err, or_throw, throw_if}
use nest_js_ecomm_rd.Entities.{Product}
use nest_js_ecomm_rd.Database.{Repository, product_id}
use nest_js_ecomm_rd.Orders.Listing.{
  Nullable, undefined, null, given, OrdersPaginationInput, limit_of, offset_of,
}

-- `description` is absent where it is undefined or null.
pub record CreateProductDto : Type 0 where
  pub name : String
  pub sku : String
  pub description : Option String
  pub price : Number
  pub stock : Nullable ℤ
  pub is_active : Nullable Bool

-- The price is a text here.
pub record CreateProductInput : Type 0 where
  pub name : String
  pub sku : String
  pub description : Option String
  pub price : String
  pub stock : Nullable ℤ
  pub is_active : Nullable Bool

-- A field is absent where it is undefined; a null description is an inner absence.
pub record UpdateProductDto : Type 0 where
  pub name : Option String
  pub sku : Option String
  pub description : Option (Option String)
  pub price : Option Number
  pub stock : Option ℤ
  pub is_active : Option Bool

-- A column that takes no null: what it holds after it was given `n`.
abbrev pub Holds : {Value : Type 0} → Nullable Value → Value → Value → Type 0
Holds undefined default value = value ≡ default
Holds null default value = ⊥
Holds (given v) default value = value ≡ v

pub record HasColumns (n : CreateProductDto) (product : Product) : Type 0 where
  pub name : product.name ≡ n.name
  pub sku : product.sku ≡ n.sku
  pub description : product.description ≡ n.description
  pub price : product.price ≡ n.price
  pub stock : Holds n.stock (pos 0) product.stock
  pub is_active : Holds n.is_active true product.is_active

abbrev pub merge : UpdateProductDto → Product → Product
merge updates product = record product {
  name = get_or updates.name product.name;
  sku = get_or updates.sku product.sku;
  description = get_or updates.description product.description;
  price = get_or updates.price product.price;
  stock = get_or updates.stock product.stock;
  is_active = get_or updates.is_active product.is_active;
}

abbrev pub ProductRepository : Type 0 → Type 0
ProductRepository S =
    Repository Product CreateProductDto UpdateProductDto S product_id HasColumns merge

-- `number` is JavaScript's `Number` on texts.
abbrev pub to_dto : (String → Number) → CreateProductInput → CreateProductDto
to_dto number input = record {
  name = input.name;
  sku = input.sku;
  description = input.description;
  price = number input.price;
  stock = input.stock;
  is_active = input.is_active;
}

module _ {S : Type 0} (repository : ProductRepository S) where
  unfoldable pub create : CreateProductDto → S → Result (Product × S)
  create dto s = repository.insert dto s

  unfoldable pub create_from_input :
      (String → Number) → CreateProductInput → S → Result (Product × S)
  unfolding create
  create_from_input number input s = create (to_dto number input) s

  abbrev pub get_all : S → List Product
  get_all s = repository.find s

  -- `page` is the query with its limit and offset, newest first.
  abbrev pub get_all_paginated :
      (Nullable ℤ → Nullable ℤ → S → Result (List Product))
      → Option OrdersPaginationInput
      → S
      → Result (List Product)
  get_all_paginated page pagination s = page (limit_of pagination) (offset_of pagination) s

  unfoldable pub get_product : String → S → Result Product
  get_product id s = or_throw (repository.find_one id s) (not_found "Product not found")

  unfoldable pub update_product : String → UpdateProductDto → S → Result (Product × S)
  update_product id updates s = elim (repository.preload id updates s) [
    | none ↦ err (not_found "Product not found")
    | some product ↦ repository.save product s
  ]

  unfoldable pub delete_product : String → S → Result (Unit {0}) × S
  delete_product id s =
      let (affected, s') = repository.delete id s in
      (throw_if (affected == 0) (not_found "Product not found"), s')
