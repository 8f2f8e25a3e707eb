-- ===== src/Products/Loader.antt =====
-- src/graphql/dataloaders/product.loader.ts: the batch function of `ProductLoader`, which DataLoader calls
-- with the identifiers that the resolvers of one request have asked for.
use nest_js_ecomm_rd.Base.{
  String, ◌≡◌, refl, sym, ap, ◌∙◌, ◌⊎◌, inl, inr, true, Option, none, some, List, [], ◌∷◌, map, Map,
  empty_map, set, includes, is_some, All, str_eq, arith, eq_iff, eq_refl, Option-cases, Bool-cases,
}
use nest_js_ecomm_rd.Entities.{Product}
use nest_js_ecomm_rd.Database.{product_id, find_by}

-- `find({ where: { id: In(ids) } })`: each row that it gives is stored under its identifier, and there is one
-- for each identifier asked for that has a row. Nothing is said of their order.
pub record FindIn (S : Type 0) (rows : S → List Product) : Type 0 where
  pub find_in : List String → S → List Product
  pub find_in-stored :
      (ids : List String) (s : S)
      → All (λ p. find_by product_id p.id (rows s) ≡ some p) (find_in ids s)
  pub find_in-complete :
      (ids : List String) (s : S) (id : String) (p : Product)
      → includes ids id ≡ true
      → find_by product_id id (rows s) ≡ some p
      → is_some (find_by product_id id (find_in ids s)) ≡ true

-- `new Map(products.map((p) => [p.id, p]))`, added to a map.
abbrev pub add_entries : List Product → Map Product → Map Product
add_entries [] m = m
add_entries (p ∷ ps) m = add_entries ps (set p.id p m)

-- `idList.map((id) => map.get(id) ?? null)`
abbrev pub pick : Map Product → List String → List (Option Product)
pick m [] = []
pick m (id ∷ ids) = m id ∷ pick m ids

module _ {S : Type 0} {rows : S → List Product} (query : FindIn S rows) where
  unfoldable pub batch_load : List String → S → List (Option Product)
  batch_load ids s = pick (add_entries (query.find_in ids s) empty_map) ids

-- Where each row is the one that `table` has under its identifier, the map has nothing else.
add_entries-stored :
    (table : List Product) (ps : List Product) (m : Map Product) (id : String)
    → All (λ p. find_by product_id p.id table ≡ some p) ps
    → (add_entries ps m id ≡ find_by product_id id table)
      ⊎ ((add_entries ps m id ≡ m id) × (find_by product_id id ps ≡ none))
add_entries-stored table [] m id all = inr (refl, refl)
add_entries-stored table (p ∷ ps) m id (stored, all) =
    elim (add_entries-stored table ps (set p.id p m) id all) [
      | inl known ↦ inl known
      | inr (same, missing) ↦ elim (Bool-cases (str_eq p.id id)) [
        | inl own ↦
            let named : p.id ≡ id = ground (arith, eq_iff p.id id) in
            let last : set p.id p m id ≡ some p = ground (arith, own) in
            inl (same ∙ last ∙ sym stored ∙ ap (λ i. find_by product_id i table) named)
        | inr other ↦ inr (same ∙ ground (arith, other), ground (arith, other, missing))
      ]
    ]

pick-map :
    (m f : Map Product) (ids : List String)
    → ((id : String) → includes ids id ≡ true → m id ≡ f id)
    → pick m ids ≡ map f ids
pick-map m f [] each = refl
pick-map m f (id ∷ ids) each =
    let here = each id (ground (arith, eq_refl id)) in
    let rest = pick-map m f ids (λ j asked. each j (ground (arith, asked))) in
    ap (λ o. o ∷ pick m ids) here ∙ ap (f id ∷◌) rest

module _ {S : Type 0} {rows : S → List Product} (query : FindIn S rows) where
  loaded :
      (ids : List String) (s : S) (id : String)
      → includes ids id ≡ true
      → add_entries (query.find_in ids s) empty_map id ≡ find_by product_id id (rows s)
  loaded ids s id asked =
      elim (add_entries-stored (rows s) (query.find_in ids s) empty_map id
        (query.find_in-stored ids s)) [
          | inl known ↦ known
          | inr (nothing, missing) ↦ elim (Option-cases (find_by product_id id (rows s))) [
            | inl absent ↦ nothing ∙ sym absent
            | inr (p, present) ↦
                let found = query.find_in-complete ids s id p asked present in
                absurd (ground (arith, missing))
          ]
        ]

  -- The batch function answers one entry for each identifier, in the order of the identifiers: the product
  -- that is stored under it or null, in whatever order the database has returned the rows.
  pub batch_load-aligned :
      (ids : List String) (s : S)
      → batch_load query ids s ≡ map (λ id. find_by product_id id (rows s)) ids
  unfolding batch_load
  batch_load-aligned ids s =
      pick-map (add_entries (query.find_in ids s) empty_map) (λ id. find_by product_id id (rows s))
        ids (λ id asked. loaded ids s id asked)
