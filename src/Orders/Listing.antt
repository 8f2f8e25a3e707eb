-- ===== src/Orders/Listing.antt =====
-- `OrdersService.getAllConnection` and `getAll`, with the inputs and types of src/graphql. TypeORM's query
-- builder is the record `QueryBuilder`: the rows of a filter in the order that the database gives them,
-- which is the same for the same tables, and the count and the page that are read of them.
use nest_js_ecomm_rd.Base.{
  ℕ, ◌≡◌, ◌≤◌, Bool, true, false, ◌&&◌, Option, none, some, List, [], ◌∷◌, leb, ltb, length,
  filterb, take, drop, All,
}
use nest_js_ecomm_rd.Base.Int.{ℤ, pos, ◌+ℤ◌, leb_ℤ, ltb_ℤ, pos_part}
use nest_js_ecomm_rd.Errors.{bad_request, internal, Result, ok, err, ◌>>=◌, ◌>>◌, throw_if}
use nest_js_ecomm_rd.Entities.{Order, OrderStatus}
use nest_js_ecomm_rd.Database.{Tables, items_of}
use nest_js_ecomm_rd.Orders.Process.{same_status}
use mathlib.Core.List.{Perm}

-- A field of a GraphQL input that may be left out or given as null.
pub data Nullable (Value : Type 0) : Type 0 where
  undefined null : Nullable Value
  given : Value → Nullable Value

-- A field is absent where it is undefined or null, which the code does not tell apart. Dates are in
-- milliseconds.
pub record OrdersFilterInput : Type 0 where
  pub status : Option OrderStatus
  pub date_from : Option ℕ
  pub date_to : Option ℕ

pub record OrdersPaginationInput : Type 0 where
  pub limit : Nullable ℤ
  pub offset : Nullable ℤ

pub record PageInfo : Type 0 where
  pub has_next_page : Bool
  pub has_previous_page : Bool

pub record OrdersConnection : Type 0 where
  pub nodes : List Order
  pub total_count : ℕ
  pub page_info : PageInfo

-- `null <= 0` is true.
abbrev pub not_positive : Nullable ℤ → Bool
not_positive undefined = false
not_positive null = true
not_positive (given n) = leb_ℤ n (pos 0)

-- `null < 0` is false.
abbrev pub is_negative : Nullable ℤ → Bool
is_negative undefined = false
is_negative null = false
is_negative (given n) = ltb_ℤ n (pos 0)

unfoldable pub validate_pagination : Option OrdersPaginationInput → Result (Unit {0})
validate_pagination none = ok tt
validate_pagination (some pagination) = do
  throw_if (not_positive pagination.limit) (bad_request "limit must be greater than 0")
  throw_if (is_negative pagination.offset) (bad_request "offset must be 0 or greater")

abbrev pub is_after : Option ℕ → Option ℕ → Bool
is_after (some from) (some to) = ltb to from
is_after _ _ = false

unfoldable pub validate_filters : Option OrdersFilterInput → Result (Unit {0})
validate_filters none = ok tt
validate_filters (some filter) =
    throw_if (is_after filter.date_from filter.date_to) (bad_request "dateFrom must be <= dateTo")

-- The conditions that are added to the query.
abbrev pub conditions : Option OrdersFilterInput → OrdersFilterInput
conditions none = record { status = none; date_from = none; date_to = none }
conditions (some filter) = filter

-- `order.status = :status`
abbrev pub has_status : Option OrderStatus → OrderStatus → Bool
has_status none status = true
has_status (some wanted) status = same_status status wanted

-- `order.createdAt >= :dateFrom`
abbrev pub not_before : Option ℕ → ℕ → Bool
not_before none created_at = true
not_before (some date) created_at = leb date created_at

-- `order.createdAt <= :dateTo`
abbrev pub not_after : Option ℕ → ℕ → Bool
not_after none created_at = true
not_after (some date) created_at = leb created_at date

abbrev pub matches : OrdersFilterInput → Order → Bool
matches filter order =
    has_status filter.status order.status
    && (not_before filter.date_from order.created_at && not_after filter.date_to order.created_at)

-- `leftJoinAndSelect('order.items', 'item')`
abbrev pub with_items : Tables → List Order → List Order
with_items t [] = []
with_items t (o ∷ os) = record o { items = items_of o.id t.order_items } ∷ with_items t os

-- The orders that a filter selects.
abbrev pub matching : OrdersFilterInput → Tables → List Order
matching filter t = with_items t (filterb (matches filter) t.orders)

-- `orderBy('order.createdAt', 'DESC')`
abbrev pub IsNewestFirst : List Order → Type 0
IsNewestFirst [] = Unit
IsNewestFirst (o ∷ os) = All (λ p. p.created_at ≤ o.created_at) os × IsNewestFirst os

-- What `take` and `skip` leave of the rows; neither does anything for undefined or null.
abbrev pub taken : Nullable ℤ → List Order → List Order
taken (given n) os = take (pos_part n) os
taken _ os = os

abbrev pub skipped : Nullable ℤ → List Order → List Order
skipped (given n) os = drop (pos_part n) os
skipped _ os = os

-- Orders with the same time may stand in another order in the rows of each query.
pub record QueryBuilder : Type 0 where
  pub get_count : OrdersFilterInput → Tables → Result ℕ
  pub get_many : OrdersFilterInput → Nullable ℤ → Nullable ℤ → Tables → Result (List Order)
  pub get_count_lem :
      (filter : OrdersFilterInput) (t : Tables) (n : ℕ)
      → get_count filter t ≡ ok n
      → n ≡ length (matching filter t)
  pub get_many_lem :
      (filter : OrdersFilterInput) (limit offset : Nullable ℤ) (t : Tables) (nodes : List Order)
      → get_many filter limit offset t ≡ ok nodes
      → (rows : List Order) × Perm rows (matching filter t)
        × IsNewestFirst rows
        × (nodes ≡ taken limit (skipped offset rows))

-- `pagination?.limit`, `pagination?.offset`
abbrev pub limit_of : Option OrdersPaginationInput → Nullable ℤ
limit_of none = undefined
limit_of (some pagination) = pagination.limit

abbrev pub offset_of : Option OrdersPaginationInput → Nullable ℤ
offset_of none = undefined
offset_of (some pagination) = pagination.offset

-- `value ?? fallback`
abbrev pub value_or : Nullable ℤ → ℤ → ℤ
value_or (given n) fallback = n
value_or _ fallback = fallback

abbrev pub page_info : ℤ → ℤ → ℕ → PageInfo
page_info limit offset total_count = record {
  has_next_page = ltb_ℤ (offset +ℤ limit) (pos total_count);
  has_previous_page = ltb_ℤ (pos 0) offset;
}

-- The `catch` block.
abbrev pub or_fail : {Value : Type 0} → Result Value → Result Value
or_fail (ok value) = ok value
or_fail (err error) = err (internal "Failed to fetch orders")

module _ (qb : QueryBuilder) where
  -- The `try` block.
  unfoldable pub fetch :
      OrdersFilterInput → Nullable ℤ → Nullable ℤ → Tables → Result OrdersConnection
  fetch filter limit offset t = do
    total_count ← qb.get_count filter t
    nodes ← qb.get_many filter limit offset t
    ok (record {
      nodes = nodes;
      total_count = total_count;
      page_info =
          page_info (value_or limit (pos total_count)) (value_or offset (pos 0)) total_count;
    })

  unfoldable pub get_all_connection :
      Option OrdersFilterInput → Option OrdersPaginationInput → Tables → Result OrdersConnection
  get_all_connection filter pagination t = do
    validate_filters filter
    validate_pagination pagination
    or_fail (fetch (conditions filter) (limit_of pagination) (offset_of pagination) t)
