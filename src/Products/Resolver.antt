-- ===== src/Products/Resolver.antt =====
-- src/graphql/order-item.resolver.ts, with `load` of the request's `ProductLoader`. DataLoader, which gathers
-- what the resolvers of a request load, is a parameter.
use nest_js_ecomm_rd.Base.{◌≡◌, ap, ◌∙◌, refl, Option, List, [], ◌∷◌, map}
use nest_js_ecomm_rd.Entities.{Product, OrderItem}
use nest_js_ecomm_rd.Database.{product_id, find_by}
use nest_js_ecomm_rd.Products.Loader.{FindIn, batch_load, batch_load-aligned}

-- `load` of each of the keys: DataLoader asks for the keys in batches of its choice, and where each batch is
-- answered by one function of the key, so is each load.
record DataLoader : Type 1 where
  load_each :
      {Key Value : Type 0} → (List Key → List (Option Value)) → List Key → List (Option Value)
  load_each-map :
      {Key Value : Type 0} (batch : List Key → List (Option Value)) (f : Key → Option Value)
      (keys : List Key)
      → ((ks : List Key) → batch ks ≡ map f ks)
      → load_each batch keys ≡ map f keys

-- All keys in one batch.
one_batch : DataLoader
one_batch = record {
  load_each = λ batch keys. batch keys;
  load_each-map = λ batch f keys each. each keys;
}

module _ (loader : DataLoader) {S : Type 0} {rows : S → List Product} (query : FindIn S rows) where
  -- `OrderItemResolver.product`, for the items of one request.
  unfoldable resolve_products : List OrderItem → S → List (Option Product)
  resolve_products items s =
      loader.load_each (λ ids. batch_load query ids s) (map (λ item. item.product_id) items)

  map-map :
      {A B C : Type 0} (f : A → B) (g : B → C) (xs : List A)
      → map g (map f xs) ≡ map (λ x. g (f x)) xs
  map-map f g [] = refl
  map-map f g (x ∷ xs) = ap (g (f x) ∷◌) (map-map f g xs)

  -- Each item is answered with the product that is stored under its identifier, or null.
  resolve_products-find_by :
      (items : List OrderItem) (s : S)
      → resolve_products items s ≡ map (λ item. find_by product_id item.product_id (rows s)) items
  unfolding resolve_products
  resolve_products-find_by items s =
      loader.load_each-map (λ ids. batch_load query ids s) (λ id. find_by product_id id (rows s))
        (map (λ item. item.product_id) items) (λ ids. batch_load-aligned query ids s)
      ∙ map-map (λ item. item.product_id) (λ id. find_by product_id id (rows s)) items
