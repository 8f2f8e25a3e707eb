-- ===== src/Orders/Shop.antt =====
-- A small database with one user and one product, and a request for two of it.
use nest_js_ecomm_rd.Base.{ℕ, String, true, false, none, some, [], ◌∷◌, decimal}
use nest_js_ecomm_rd.Base.Int.{pos}
use nest_js_ecomm_rd.Entities.{User, Product, Order, pending}
use nest_js_ecomm_rd.Database.{Tables, Orm, memory}
use nest_js_ecomm_rd.Errors.{ok}
use nest_js_ecomm_rd.Orders.Create.{
  CreateOrderDto, CreateOrderItemDto, Interference, Created, create,
}

abbrev pub user : User
user = record {
  id = "u1";
  email = "ann@example.com";
  password_hash = none;
  roles = [];
  scopes = [];
  avatar_file_id = none;
}

abbrev pub product : Product
product = record {
  id = "p1";
  name = "Lamp";
  sku = "L1";
  description = none;
  price = decimal false 1050 2;
  stock = pos 5;
  is_active = true;
  image_file_id = none;
}

abbrev pub shop : Tables
shop = record {
  users = user ∷ [];
  products = product ∷ [];
  orders = [];
  order_items = [];
  processed_messages = λ id. false;
}

abbrev pub two_lamps : CreateOrderItemDto
two_lamps = record { product_id = "p1"; quantity = pos 2; price_snapshot = decimal false 1050 2 }

abbrev pub dto : CreateOrderDto
dto = record { user_id = "u1"; idempotency_key = none; items = some (two_lamps ∷ []) }

abbrev pub no_dto : CreateOrderDto
no_dto = record dto { items = none }

abbrev pub nobody : Interference
nobody = record {
  before_user = λ t. t;
  before_transaction = λ t. t;
  after_rollback = λ t. t;
  publish = λ message. ok true;
}

abbrev pub order : Order
order = record {
  id = "o1";
  user_id = "u1";
  items = [];
  status = pending;
  idempotency_key = some "k1";
  created_at = 0;
  updated_at = 0;
  processed_at = none;
}

abbrev pub with_order : Tables → Tables
with_order t = record t { orders = order ∷ [] }

-- Another request with the same key is faster.
abbrev pub rival : Interference
rival = record nobody { before_transaction = with_order }

abbrev pub orm : Orm
orm = memory "o1"

abbrev pub iso : ℕ → String
iso time = "1970-01-01T00:00:00.000Z"

abbrev pub after : Created
after = create orm nobody "m1" iso dto (some "k1") shop

abbrev pub placed : Order
placed = record order {
  items =
      record {
        id = "o1";
        order_id = "o1";
        product_id = "p1";
        quantity = pos 2;
        price_snapshot = decimal false 1050 2;
      }
      ∷ [];
}
