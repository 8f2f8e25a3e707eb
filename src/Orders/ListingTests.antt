-- ===== src/Orders/ListingTests.antt =====
-- Listing the orders of a small database.
use nest_js_ecomm_rd.Base.{
  ℕ, String, ◌≡◌, sym, ap, ◌∙◌, ◌==◌, refl, true, false, none, some, List, [], ◌∷◌, arith,
}
use nest_js_ecomm_rd.Base.Int
use nest_js_ecomm_rd.Base.Int.{pos}
use nest_js_ecomm_rd.Errors.{ok, err, bad_request}
use nest_js_ecomm_rd.Entities.{Order, OrderStatus, pending, processed}
use nest_js_ecomm_rd.Database.{Tables}
use nest_js_ecomm_rd.Orders.Listing.{
  undefined, null, given, OrdersFilterInput, OrdersPaginationInput, OrdersConnection,
  get_all_connection, fetch, validate_pagination, validate_filters, matching, IsNewestFirst,
}
use nest_js_ecomm_rd.Orders.Pages.{
  String-set, TimesDiffer, IsPage, get_all_connection-IsPage, all_pages, all_pages_complete,
}
use nest_js_ecomm_rd.Orders.Rows.{sorted_rows}
use mathlib.Core.List.{Perm, Memᴰ}
use mathlib.Core.Logic.{∥∥₁_elim}

abbrev order : String → OrderStatus → ℕ → Order
order id status created_at = record {
  id = id;
  user_id = "u1";
  items = [];
  status = status;
  idempotency_key = none;
  created_at = created_at;
  updated_at = created_at;
  processed_at = none;
}

abbrev shop : Tables
shop = record {
  users = [];
  products = [];
  orders =
      order "o1" pending 10
      ∷ order "o2" pending 30
      ∷ order "o3" processed 20
      ∷ order "o4" pending 40
      ∷ [];
  order_items = [];
  processed_messages = λ id. false;
}

abbrev pending_orders : OrdersFilterInput
pending_orders = record { status = some pending; date_from = none; date_to = some 50 }

abbrev second_page : OrdersPaginationInput
second_page = record { limit = given (pos 1); offset = given (pos 1) }

abbrev page : OrdersConnection
page = record {
  nodes = order "o2" pending 30 ∷ [];
  total_count = 3;
  page_info = record { has_next_page = true; has_previous_page = true };
}

get_all_connection_example :
    get_all_connection sorted_rows (some pending_orders) (some second_page) shop ≡ ok page
unfolding get_all_connection fetch validate_pagination validate_filters Int.◌+ℤ◌
get_all_connection_example = refl

get_all_connection-IsPage_example : IsPage page pending_orders shop
get_all_connection-IsPage_example =
    get_all_connection-IsPage sorted_rows (some pending_orders) (some second_page) shop page
      get_all_connection_example

-- Orders of other times.
apart :
    {a b c d : Order}
    → a ≡ c
    → b ≡ d
    → a.created_at ≡ b.created_at
    → (c.created_at == d.created_at) ≡ false
    → a ≡ b
apart e e' same differ =
    let same_end = sym (ap (λ o. o.created_at) e) ∙ same ∙ ap (λ o. o.created_at) e' in
    absurd (ground (arith, same_end, differ))

times_differ : TimesDiffer (matching pending_orders shop)
times_differ a b m m' same =
    ∥∥₁_elim m (hlevel (String-set))
      (λ d. ∥∥₁_elim m' (hlevel (String-set)) (λ d'. go a b same d d'))
  where
    go :
        (a b : Order)
        → a.created_at ≡ b.created_at
        → Memᴰ a (matching pending_orders shop)
        → Memᴰ b (matching pending_orders shop)
        → a ≡ b
    go a b same (Memᴰ.head e) (Memᴰ.head e') = e ∙ sym e'
    go a b same (Memᴰ.head e) (Memᴰ.tail (Memᴰ.head e')) = apart e e' same refl
    go a b same (Memᴰ.head e) (Memᴰ.tail (Memᴰ.tail (Memᴰ.head e'))) = apart e e' same refl
    go a b same (Memᴰ.tail (Memᴰ.head e)) (Memᴰ.head e') = apart e e' same refl
    go a b same (Memᴰ.tail (Memᴰ.head e)) (Memᴰ.tail (Memᴰ.head e')) = e ∙ sym e'
    go a b same (Memᴰ.tail (Memᴰ.head e)) (Memᴰ.tail (Memᴰ.tail (Memᴰ.head e'))) =
        apart e e' same refl
    go a b same (Memᴰ.tail (Memᴰ.tail (Memᴰ.head e))) (Memᴰ.head e') = apart e e' same refl
    go a b same (Memᴰ.tail (Memᴰ.tail (Memᴰ.head e))) (Memᴰ.tail (Memᴰ.head e')) =
        apart e e' same refl
    go a b same (Memᴰ.tail (Memᴰ.tail (Memᴰ.head e))) (Memᴰ.tail (Memᴰ.tail (Memᴰ.head e'))) =
        e ∙ sym e'
    go a b same (Memᴰ.head e) (Memᴰ.tail (Memᴰ.tail (Memᴰ.tail x))) = elim x [ ]
    go a b same (Memᴰ.tail (Memᴰ.head e)) (Memᴰ.tail (Memᴰ.tail (Memᴰ.tail x))) = elim x [ ]
    go a b same (Memᴰ.tail (Memᴰ.tail (Memᴰ.head e))) (Memᴰ.tail (Memᴰ.tail (Memᴰ.tail x))) =
        elim x [ ]
    go a b same (Memᴰ.tail (Memᴰ.tail (Memᴰ.tail x))) _ = elim x [ ]

all_pages_complete_example :
    (os : List Order) × (all_pages sorted_rows 4 (some pending_orders) 2 0 shop ≡ ok os)
    × Perm os (matching pending_orders shop)
    × IsNewestFirst os
unfolding validate_filters
all_pages_complete_example =
    all_pages_complete sorted_rows (some pending_orders) 2 shop (omega arith) refl
      (record { count = (3, refl); many = λ limit offset. (_, refl) }) times_differ

-- A limit of null is refused, though the decorators of the input let it pass.
null_limit :
    get_all_connection sorted_rows none (some (record { limit = null; offset = undefined })) shop
    ≡ err (bad_request "limit must be greater than 0")
unfolding get_all_connection validate_pagination validate_filters
null_limit = refl
