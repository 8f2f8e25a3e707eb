-- ===== src/Entities.antt =====
-- The rows of the database (the classes under src/*/entity and src/files, src/idempotency). Dates are
-- milliseconds since the epoch. The `items` of an order are loaded by a join and not a column of it.
use nest_js_ecomm_rd.Base.{ℕ, String, Bool, Option, List, Number}
use nest_js_ecomm_rd.Base.Int.{ℤ}

pub record User : Type 0 where
  pub id : String
  pub email : String
  pub password_hash : Option String
  pub roles : List String
  pub scopes : List String
  pub avatar_file_id : Option String

pub record Product : Type 0 where
  pub id : String
  pub name : String
  pub sku : String
  pub description : Option String
  pub price : Number
  pub stock : ℤ
  pub is_active : Bool
  pub image_file_id : Option String

pub data OrderStatus : Type 0 where
  created pending processed paid cancelled : OrderStatus

pub record OrderItem : Type 0 where
  pub id : String
  pub order_id : String
  pub product_id : String
  pub quantity : ℤ
  pub price_snapshot : Number

pub record Order : Type 0 where
  pub id : String
  pub user_id : String
  pub items : List OrderItem
  pub status : OrderStatus
  pub idempotency_key : Option String
  pub created_at : ℕ
  pub updated_at : ℕ
  pub processed_at : Option ℕ
