-- ===== src/Seeds/Data.antt =====
-- The constants of the seed, and how they are made. A text that is computed is a list of code points.
use nest_js_ecomm_rd.Base.{
  Option, none, ℕ, zero, suc, ◌+◌, ◌-◌, ◌*◌, ◌/◌, ◌%◌, String, Bool, true, false, ◌&&◌, ◌||◌, List,
  [], ◌∷◌, ◌++◌, ◌==◌, leb, if◌then◌else◌, codes, map, Number, decimal,
}

pub record UserSeed : Type 0 where
  pub email : String
  pub password : String
  pub roles : List String
  pub scopes : List String

abbrev pub users_seed : List UserSeed
users_seed =
    record {
      email = "alice@example.com";
      password = "password123";
      roles = "user" ∷ [];
      scopes = "orders:read" ∷ "orders:write" ∷ "files:write" ∷ [];
    }
    ∷ record {
      email = "bob@example.com";
      password = "password123";
      roles = "support" ∷ [];
      scopes = "orders:read" ∷ [];
    }
    ∷ record {
      email = "charlie@example.com";
      password = "password123";
      roles = "admin" ∷ [];
      scopes = "orders:read" ∷ "orders:write" ∷ "products:images:assign:any" ∷ [];
    }
    ∷ []

abbrev pub product_names : List String
product_names =
    "Coffee Mug" ∷ "Notebook" ∷ "Desk Lamp" ∷ "Mechanical Keyboard" ∷ "Wireless Mouse"
    ∷ "USB-C Cable" ∷ "Webcam" ∷ "Laptop Stand" ∷ "Monitor 24\"" ∷ "Monitor 27\"" ∷ "Headphones"
    ∷ "Microphone" ∷ "Backpack" ∷ "Water Bottle" ∷ "Sticker Pack" ∷ "T-Shirt" ∷ "Hoodie" ∷ "Pen Set"
    ∷ "Mouse Pad" ∷ "External SSD" ∷ "Power Bank" ∷ "Smart Plug" ∷ "Smart Bulb" ∷ "Router"
    ∷ "Keyboard Wrist Rest" ∷ []

-- `toUpperCase`, on ASCII.
abbrev to_upper : ℕ → ℕ
to_upper c = if leb b'a' c && leb c b'z' then c - 32 else c

abbrev is_alphanumeric : ℕ → Bool
is_alphanumeric c = leb b'A' c && leb c b'Z' || leb b'0' c && leb c b'9'

-- `replace(/[^A-Z0-9]+/g, '-')`; `inside` says that a run of other characters has begun.
abbrev dashed : Bool → List ℕ → List ℕ
dashed inside [] = []
dashed inside (c ∷ cs) =
    let kept = dashed false cs in
    let skipped = dashed true cs in
    if is_alphanumeric c then c ∷ kept else if inside then skipped else b'-' ∷ skipped

-- `replace(/(^-|-$)/g, '')`
abbrev without_first : List ℕ → List ℕ
without_first [] = []
without_first (c ∷ cs) = if c == b'-' then cs else c ∷ cs

abbrev without_last : List ℕ → List ℕ
without_last [] = []
without_last (c ∷ []) = if c == b'-' then [] else c ∷ []
without_last (c ∷ d ∷ cs) = c ∷ without_last (d ∷ cs)

-- `String(n)`: a number has no more digits than its successor counts.
abbrev digits_of : ℕ → ℕ → List ℕ → List ℕ
digits_of zero n rest = rest
digits_of (suc fuel) n rest =
    let front = digits_of fuel (n / 10) ((b'0' + n % 10) ∷ rest) in
    if leb n 9 then (b'0' + n) ∷ rest else front

-- `padStart(3, '0')`
abbrev pad : List ℕ → List ℕ
pad [] = b'0' ∷ b'0' ∷ b'0' ∷ []
pad (a ∷ []) = b'0' ∷ b'0' ∷ a ∷ []
pad (a ∷ b ∷ []) = b'0' ∷ a ∷ b ∷ []
pad digits = digits

unfoldable pub make_sku : String → ℕ → List ℕ
make_sku name index =
    let base = without_last (without_first (dashed false (map to_upper (codes name)))) in
    codes "SKU-" ++ pad (digits_of (index + 2) (index + 1) []) ++ b'-' ∷ base

pub record ProductSeed : Type 0 where
  pub name : String
  pub sku : List ℕ
  pub description : Option String
  pub price : Number
  pub is_active : Bool
  pub stock : ℕ

abbrev pub product_seed : String → ℕ → ProductSeed
product_seed name index = record {
  name = name;
  sku = make_sku name index;
  description = none;
  price = decimal false ((5 + index * 3) * 100 + 99) 2;
  is_active = true;
  stock = if index % 5 == 0 then 2 else 20;
}

-- `productNames.map((name, index) => ...)`
abbrev pub seeds_from : ℕ → List String → List ProductSeed
seeds_from index [] = []
seeds_from index (name ∷ names) = product_seed name index ∷ seeds_from (index + 1) names

abbrev pub products_seed : List ProductSeed
products_seed = seeds_from 0 product_names

pub record ItemSeed : Type 0 where
  pub id : String
  pub product_name : String
  pub quantity : ℕ

pub record OrderSeed : Type 0 where
  pub id : String
  pub user_email : String
  pub items : List ItemSeed

abbrev pub orders_seed : List OrderSeed
orders_seed =
    record {
      id = "11111111-1111-1111-1111-111111111111";
      user_email = "alice@example.com";
      items =
          record {
            id = "aaaaaaaa-aaaa-aaaa-aaaa-aaaaaaaaaaa1";
            product_name = "Coffee Mug";
            quantity = 1;
          }
          ∷ record {
            id = "aaaaaaaa-aaaa-aaaa-aaaa-aaaaaaaaaaa2";
            product_name = "Mechanical Keyboard";
            quantity = 1;
          }
          ∷ [];
    }
    ∷ record {
      id = "22222222-2222-2222-2222-222222222222";
      user_email = "bob@example.com";
      items =
          record {
            id = "bbbbbbbb-bbbb-bbbb-bbbb-bbbbbbbbbbb1";
            product_name = "Notebook";
            quantity = 2;
          }
          ∷ record {
            id = "bbbbbbbb-bbbb-bbbb-bbbb-bbbbbbbbbbb2";
            product_name = "Wireless Mouse";
            quantity = 1;
          }
          ∷ [];
    }
    ∷ []
