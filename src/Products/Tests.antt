-- ===== src/Products/Tests.antt =====
-- Products in a table that is a list.
use nest_js_ecomm_rd.Base.{
  String, ◌≡◌, refl, Bool, true, false, inl, inr, Bool-cases, ap, ◌∙◌, eq_iff, Option, none, some,
  List, [], ◌∷◌, map, filterb, includes, is_some, All, Number, decimal, nan, str_eq, if◌then◌else◌,
  arith,
}
use nest_js_ecomm_rd.Base.Int.{ℤ, pos}
use nest_js_ecomm_rd.Entities.{Product}
use nest_js_ecomm_rd.Database.{find_by, product_id, listed}
use nest_js_ecomm_rd.Orders.Listing.{Nullable, undefined, null, given}
use nest_js_ecomm_rd.Products.{
  CreateProductDto, CreateProductInput, HasColumns, Holds, ProductRepository, merge,
}
use nest_js_ecomm_rd.Products.Loader.{FindIn, batch_load, batch_load-aligned}

abbrev column : {Value : Type 0} → Nullable Value → Value → Option Value
column undefined default = some default
column null default = none
column (given v) default = some v

abbrev row_of : CreateProductDto → Option ℤ → Option Bool → Option Product
row_of n none is_active = none
row_of n (some stock) none = none
row_of n (some stock) (some is_active) = some (record {
  id = "p2";
  name = n.name;
  sku = n.sku;
  description = n.description;
  price = n.price;
  stock = stock;
  is_active = is_active;
  image_file_id = none;
})

-- The new row has the identifier `p2`; a null in a column that takes none is refused.
abbrev to_product : CreateProductDto → Option Product
to_product n = row_of n (column n.stock (pos 0)) (column n.is_active true)

column-Holds :
    {Value : Type 0} (n : Nullable Value) (default value : Value)
    → column n default ≡ some value
    → Holds n default value
column-Holds undefined default value h = cc
column-Holds null default value h = cc
column-Holds (given v) default value h = cc

makes : (n : CreateProductDto) (p : Product) → to_product n ≡ some p → HasColumns n p
makes n p h = record {
  name = ground arith;
  sku = ground arith;
  description = ground arith;
  price = ground arith;
  stock = column-Holds n.stock (pos 0) p.stock (ground arith);
  is_active = column-Holds n.is_active true p.is_active (ground arith);
}

abbrev products : ProductRepository (List Product)
products = listed product_id HasColumns merge to_product makes

abbrev lamp : Product
lamp = record {
  id = "p1";
  name = "Lamp";
  sku = "L1";
  description = none;
  price = decimal false 1050 2;
  stock = pos 5;
  is_active = true;
  image_file_id = none;
}

abbrev chair : Product
chair = record lamp {
  id = "p2";
  name = "Chair";
  sku = "C1";
  price = decimal false 80 0;
  stock = pos 0;
}

abbrev input : CreateProductInput
input = record {
  name = "Chair";
  sku = "C1";
  description = none;
  price = "80";
  stock = undefined;
  is_active = undefined;
}

abbrev number : String → Number
number s = if str_eq s "80" then decimal false 80 0 else nan

abbrev two : List Product
two = lamp ∷ chair ∷ []

-- The rows come in another order than the identifiers.
abbrev found : List String → Unit {0} → List Product
found ids s = filterb (λ p. includes ids p.id) (chair ∷ lamp ∷ [])

found-stored :
    (ids : List String) (s : Unit {0})
    → All (λ p. find_by product_id p.id two ≡ some p) (found ids s)
found-stored ids s = elim (Bool-cases (includes ids "p2")) [
  | inl second ↦ elim (Bool-cases (includes ids "p1")) [
    | inl first ↦ rw second (rw first (refl, (refl, tt)))
    | inr no_first ↦ rw second (rw no_first (refl, tt))
  ]
  | inr no_second ↦ elim (Bool-cases (includes ids "p1")) [
    | inl first ↦ rw no_second (rw first (refl, tt))
    | inr no_first ↦ rw no_second (rw no_first tt)
  ]
]

found_complete :
    (ids : List String) (s : Unit {0}) (id : String) (p : Product)
    → includes ids id ≡ true
    → find_by product_id id two ≡ some p
    → is_some (find_by product_id id (found ids s)) ≡ true
found_complete ids s id p asked there = elim (Bool-cases (str_eq "p1" id)) [
  | inl first ↦
      let named : ◌≡◌ {A = String} "p1" id = ground (arith, eq_iff "p1" id) in
      let has : includes ids "p1" ≡ true = ap (includes ids) named ∙ asked in
      ground (arith, has, first)
  | inr other ↦
      let named : ◌≡◌ {A = String} "p2" id = ground (arith, eq_iff "p2" id, other) in
      let has : includes ids "p2" ≡ true = ap (includes ids) named ∙ asked in
      let second : str_eq "p2" id ≡ true = ground (arith, other) in ground (arith, has, second)
]

abbrev query : FindIn (Unit {0}) (λ s. two)
query = record { find_in = found; find_in-stored = found-stored; find_in-complete = found_complete }

batch_load-aligned_example :
    batch_load query ("p1" ∷ "p9" ∷ "p2" ∷ "p1" ∷ []) tt
    ≡ map (λ id. find_by product_id id two) ("p1" ∷ "p9" ∷ "p2" ∷ "p1" ∷ [])
batch_load-aligned_example = batch_load-aligned query ("p1" ∷ "p9" ∷ "p2" ∷ "p1" ∷ []) tt
