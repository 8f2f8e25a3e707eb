-- ===== src/Orders/Manage.antt =====
-- Reading, updating and deleting an order (`getOrder`, `updateOrder`, `deleteOrder`).
use nest_js_ecomm_rd.Base.{
  ℕ, String, ◌≡◌, ◌≢◌, ◌↔◌, inl, inr, sym, subst, ◌∙◌, Bool, false, not, Option, none, some, List,
  [], ◌∷◌, arith, if◌then◌else◌, eq_refl, get_or, ◌==◌, Option-cases, Bool-cases,
}
use nest_js_ecomm_rd.Errors.{not_found, Result, ok, err, or_throw, throw_if, Result-cases}
use nest_js_ecomm_rd.Entities.{Order, OrderStatus}
use nest_js_ecomm_rd.Database.{Tables, Orm, find_by, find_by-replace_by, order_id, items_of}
use nest_js_ecomm_rd.Orders.Message.{OrderStatusChangedEvent}
use nest_js_ecomm_rd.Orders.Process.{same_status, status_changed}

-- `idempotency_key` is absent where it is undefined; a null is an inner absence.
pub record UpdateOrderDto : Type 0 where
  pub status : Option OrderStatus
  pub idempotency_key : Option (Option String)

-- The answer, the tables that are left, and the events published.
pub record Updated : Type 0 where
  pub reply : Result Order
  pub tables : Tables
  pub events : List OrderStatusChangedEvent

-- `Object.assign(order, updates)`
abbrev pub assign : Order → UpdateOrderDto → Order
assign order updates = record order {
  status = get_or updates.status order.status;
  idempotency_key = get_or updates.idempotency_key order.idempotency_key;
}

-- `updates.status && updates.status !== previousStatus`
abbrev pub changes_status : Option OrderStatus → OrderStatus → Bool
changes_status none previous = false
changes_status (some status) previous = not (same_status status previous)

module _ (orm : Orm) where
  unfoldable pub get_order : String → Tables → Result Order
  get_order id t = or_throw (orm.find_order_with_items id t) (not_found "Order not found")

  unfoldable pub delete_order : String → Tables → Result (Unit {0}) × Tables
  delete_order id t =
      let (affected, t') = orm.delete_order id t in
      (throw_if (affected == 0) (not_found "Order not found"), t')

  -- From the point where the order is found.
  unfoldable pub update_found : ℕ → Order → UpdateOrderDto → Tables → Updated
  update_found now order updates t = elim (orm.save_order (assign order updates) t) [
    | err error ↦ record { reply = err error; tables = t; events = [] }
    | ok (saved, t') ↦ record {
      reply = ok saved;
      tables = t';
      events =
          if changes_status updates.status order.status then status_changed now saved ∷ [] else [];
    }
  ]

  unfoldable pub update_order : ℕ → String → UpdateOrderDto → Tables → Updated
  update_order now id updates t = elim (orm.find_order (some id) t) [
    | none ↦ record { reply = err (not_found "Order not found"); tables = t; events = [] }
    | some order ↦ update_found now order updates t
  ]

  -- A deleted order cannot be read, and deleting it again fails; the first deletion succeeds exactly for
  -- an order that could be read.
  pub delete_order_gone :
      (id : String) (t : Tables)
      → let t' = (delete_order id t).1 in
        (get_order id t' ≡ err (not_found "Order not found"))
        × ((delete_order id t').0 ≡ err (not_found "Order not found"))
        × (((delete_order id t).0 ≡ ok tt) ↔ ((order : Order) × (get_order id t ≡ ok order)))
  unfolding delete_order get_order
  delete_order_gone id t =
      let (counted, gone) = orm.delete_order_lem id t in
      let after = (orm.delete_order_lem id (orm.delete_order id t).1).0.1 gone in
      let unread = orm.find_order_with_items_lem id (orm.delete_order id t).1 in
      let read = orm.find_order_with_items_lem id t in
      (
        ground (arith, unread, gone),
        ground (arith, after),
        elim (Option-cases (find_by order_id id t.orders)) [
          | inl missing ↦ (
            λ h. absurd (let none_deleted = counted.1 missing in ground arith),
            λ (order, h). absurd (ground (arith, read, missing, h)),
          )
          | inr (order, found) ↦ (
            λ h. (
              record order { items = items_of order.id t.order_items },
              ground (arith, read, found),
            ),
            λ h. elim (Bool-cases ((orm.delete_order id t).0 == 0)) [
              | inl zero_deleted ↦
                  absurd (let missing = counted.0 (ground (arith, zero_deleted)) in ground arith)
              | inr some_deleted ↦ ground (arith, some_deleted)
            ],
          )
        ],
      )

  -- An update publishes an event exactly when it gives a status that the order did not have; the event
  -- bears the new status. The order that is answered is the stored one.
  pub update_order_effect :
      (now : ℕ) (id : String) (updates : UpdateOrderDto) (t : Tables) (before saved : Order)
      → find_by order_id id t.orders ≡ some before
      → (update_order now id updates t).reply ≡ ok saved
      → let after = update_order now id updates t in
        (saved.status ≡ get_or updates.status before.status)
        × (find_by order_id before.id after.tables.orders ≡ some saved)
        × ((saved.status ≡ before.status) → after.events ≡ [])
        × ((saved.status ≢ before.status) → after.events ≡ status_changed now saved ∷ [])
  unfolding update_order update_found
  update_order_effect now id updates t before saved found h =
      let here = orm.find_order_lem id t ∙ found in
      elim (Result-cases (orm.save_order (assign before updates) t)) [
        | inr (x, refused) ↦ absurd (ground arith)
        | inl ((row, t'), written) ↦
            let (kept, left) = orm.save_order_lem (assign before updates) t row t' written in
            let stored = orm.find_order-stored (some id) t before here in
            let same : row ≡ saved = ground arith in
            let rows =
              find_by-replace_by order_id row t.orders before before.id
                (subst (λ i. find_by order_id i t.orders ≡ some before) (sym kept.id) stored) in
            (
              ground (arith, same, kept.status),
              ground (arith, here, written, left, rows, kept.id, eq_refl before.id, same),
              λ e. ground (arith, here, written, same, kept.status, e),
              λ e. ground (arith, here, written, same, kept.status, e),
            )
      ]
