-- ===== src/Seeds/Tests.antt =====
-- The seed of an empty database, and some of its products.
use nest_js_ecomm_rd.Base.{map, String, ◌≡◌, refl, some, [], codes}
use nest_js_ecomm_rd.Errors.{ok}
use nest_js_ecomm_rd.Seeds.Data.{make_sku, users_seed, products_seed}
use nest_js_ecomm_rd.Seeds.Run.{with_hash, seed}
use nest_js_ecomm_rd.Seeds.Laws.{IsSeeded, seed_finishes}
use nest_js_ecomm_rd.Seeds.Memory.{Store, seed_store}

abbrev nothing_yet : Store
nothing_yet = record { users = []; products = []; orders = []; items = [] }

abbrev hash : String → String
hash password = "#"

seed_finishes_example :
    (with_users read after : Store) × (seed_store.upsert_users
        (map (with_hash hash) users_seed)
        nothing_yet
      ≡ ok with_users)
    × (seed_store.upsert_products products_seed with_users ≡ ok read)
    × (seed seed_store hash (some "development") nothing_yet
        ≡ record { database = after; result = ok tt })
    × IsSeeded seed_store hash read after
seed_finishes_example =
    seed_finishes seed_store hash (some "development") nothing_yet (λ e. cc) (λ users t. (_, refl))
      (λ products t. (_, refl)) (λ orders t. (_, refl)) (λ items t. (_, refl))

sku : make_sku "Monitor 24\"" 8 ≡ codes "SKU-009-MONITOR-24"
unfolding make_sku
sku = refl

long_sku : make_sku "T-Shirt" 120 ≡ codes "SKU-121-T-SHIRT"
unfolding make_sku
long_sku = refl
