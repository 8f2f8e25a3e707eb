-- ===== src/Orders/RunTests.antt =====
-- An order that is placed, repeated, processed and deleted.
use nest_js_ecomm_rd.Base.{◌≡◌, refl, some, List, [], ◌∷◌}
use nest_js_ecomm_rd.Base.Int
use nest_js_ecomm_rd.Base.Int.{pos}
use nest_js_ecomm_rd.Entities.{Product}
use nest_js_ecomm_rd.Database.{find_by, product_id, memory}
use nest_js_ecomm_rd.Orders.Create.{
  order_created, create, place, transaction, reserve_all, reserve, reserve_found,
}
use nest_js_ecomm_rd.Orders.Stock.{IsSold}
use nest_js_ecomm_rd.Orders.Runs.{
  Request, places, processes, deletes, serve_all, sold, sold_in_all, taken, serve_all-IsSold,
}
use nest_js_ecomm_rd.Orders.Shop.{product, shop, dto, orm, iso, order}

abbrev requests : List Request
requests =
    places "m1" dto (some "k1")
    ∷ places "m2" dto (some "k1")
    ∷ processes 7 (order_created "m1" iso order)
    ∷ deletes "o1"
    ∷ []

serve_all-IsSold_example :
    (q : Product) × (find_by product_id "p1" (serve_all orm taken iso requests shop).products
      ≡ some q)
    × IsSold (sold_in_all orm taken iso "p1" requests shop) product q
serve_all-IsSold_example = serve_all-IsSold orm taken iso "p1" requests shop product refl

-- Two pieces are sold, once.
sold_once : sold orm taken iso "p1" (places "m1" dto (some "k1")) shop ≡ pos 2
unfolding create place transaction reserve_all reserve reserve_found memory Int.◌+ℤ◌
sold_once = refl
