-- ===== src/Orders/Access.antt =====
-- Who may watch an order (`canSubscribeToOrder`).
use nest_js_ecomm_rd.Base.{
  String, ◌≡◌, ◌⊎◌, ◌↔◌, inl, inr, Bool, true, ◌||◌, not, some, List, includes, arith,
  if◌then◌else◌, str_eq, eq_iff, Option-cases,
}
use nest_js_ecomm_rd.Errors.{Result, ok, err, ◌>>=◌, or_throw, not_found, forbidden}
use nest_js_ecomm_rd.Entities.{Order}
use nest_js_ecomm_rd.Database.{Tables, Orm, find_by, order_id}
use nest_js_ecomm_rd.Auth.{AuthUser}

abbrev pub is_staff : List String → Bool
is_staff roles = includes roles "admin" || includes roles "operator" || includes roles "support"

unfoldable pub assert_can_access_order : Order → AuthUser → Result (Unit {0})
assert_can_access_order order user =
    if is_staff user.roles
    then ok tt
    else if not (str_eq order.user_id user.sub)
    then err (forbidden "Access denied")
    else ok tt

-- The order is stored, and the user is on the staff or has placed it.
abbrev pub MayWatch : String → AuthUser → Tables → Type 0
MayWatch id user t =
    (order : Order) × (find_by order_id id t.orders ≡ some order)
    × ((is_staff user.roles ≡ true) ⊎ (order.user_id ≡ user.sub))

module _ (orm : Orm) where
  unfoldable pub can_subscribe_to_order : String → AuthUser → Tables → Result (Unit {0})
  can_subscribe_to_order id user t = do
    order ← or_throw (orm.find_order (some id) t) (not_found "Order not found")
    assert_can_access_order order user

  pub can_subscribe_to_order_iff :
      (id : String) (user : AuthUser) (t : Tables)
      → (can_subscribe_to_order id user t ≡ ok tt) ↔ MayWatch id user t
  unfolding can_subscribe_to_order assert_can_access_order
  can_subscribe_to_order_iff id user t = elim (Option-cases (find_by order_id id t.orders)) [
    | inl missing ↦ (
      λ h. absurd (ground (arith, orm.find_order_lem id t, missing, h)),
      λ w. absurd (let found = w.1 in ground (arith, found)),
    )
    | inr (order, found) ↦ (
      λ h. (
        order,
        found,
        ground (arith, orm.find_order_lem id t, found, h, eq_iff order.user_id user.sub),
      ),
      λ (o, e, may).
          ground (arith, orm.find_order_lem id t, found, e, may, eq_iff order.user_id user.sub),
    )
  ]
