-- ===== src/Orders/Tests.antt =====
-- Orders on a small database with one user and one product.
use nest_js_ecomm_rd.Base.{
  String, ◌≡◌, ◌≢◌, ◌↔◌, ◌⊎◌, ◌≤◌, refl, true, false, Option, none, some, [], ◌∷◌,
}
use nest_js_ecomm_rd.Errors.{ok, err, not_found}
use nest_js_ecomm_rd.Entities.{Order, pending, processed}
use nest_js_ecomm_rd.Database.{memory, find_by, order_id}
use nest_js_ecomm_rd.Orders.Message.{OrderProcessMessage}
use nest_js_ecomm_rd.Orders.Create.{
  order_created, create, place, recover, transaction, reserve, reserve_all, reserve_found,
}
use nest_js_ecomm_rd.Orders.Placement.{
  IsPlaced, IsUntouched, IsUnannounced, create_places, create_leaves_no_trace,
}
use nest_js_ecomm_rd.Orders.Replay.{create_twice, create_race}
use nest_js_ecomm_rd.Orders.Process.{
  process_order_message, done, deduplicated, status_changed, in_transaction, mark_processed,
}
use nest_js_ecomm_rd.Orders.Manage.{
  UpdateOrderDto, get_order, delete_order, update_found, update_order, update_order_effect,
  delete_order_gone,
}
use nest_js_ecomm_rd.Orders.Processing.{IsMarked}
use nest_js_ecomm_rd.Orders.Effects.{process_effect}
use nest_js_ecomm_rd.Orders.Deliveries.{about, deliver, deliver_once, process_redelivered}
use nest_js_ecomm_rd.Orders.Shop.{
  user, shop, two_lamps, dto, no_dto, nobody, order, with_order, rival, orm, iso, after, placed,
}

answers_new : after.reply ≡ ok (placed, false)
unfolding create place recover transaction reserve_all reserve reserve_found memory
answers_new = refl

create_places_example :
    IsPlaced dto (two_lamps ∷ []) (some "k1") placed shop after.tables
    × (after.published ≡ order_created "m1" iso placed ∷ [])
create_places_example =
    create_places orm nobody "m1" iso dto (some "k1") shop placed (two_lamps ∷ []) refl answers_new

create_leaves_no_trace_example :
    let left = create orm nobody "m1" iso no_dto (some "k1") shop in
    (IsUntouched nobody shop left.tables × (left.published ≡ []))
    ⊎ IsUnannounced orm nobody "m1" iso no_dto (some "k1") shop left
unfolding create place memory
create_leaves_no_trace_example =
    create_leaves_no_trace orm nobody "m1" iso no_dto (some "k1") shop (λ o e. cc)

create_twice_example :
    (again : Order) × (again.id ≡ "o1")
    × (create orm nobody "m1" iso no_dto (some "k1") after.tables
        ≡ record { reply = ok (again, true); tables = after.tables; published = [] })
create_twice_example =
    create_twice orm nobody "m1" iso dto no_dto (some "k1") (some "k1") "k1" shop placed
      (two_lamps ∷ []) refl refl refl answers_new

create_race_example :
    (again : Order) × (again.id ≡ "o1")
    × (create orm rival "m1" iso dto (some "k1") shop
        ≡ record { reply = ok (again, true); tables = with_order shop; published = [] })
create_race_example =
    create_race orm rival "m1" iso dto (some "k1") "k1" shop two_lamps [] user order order refl refl
      refl refl refl refl

abbrev message : OrderProcessMessage
message = order_created "m1" iso order

process_effect_example :
    let now = process_order_message orm 7 message (with_order shop) in
    ((now.tables.orders ≡ (with_order shop).orders)
      × (now.events ≡ [])
      × ((id : Option String) → now.reply ≢ ok (done, id)))
    ⊎ ((o : Order) × IsMarked 7 message o (with_order shop) now.tables
        × (now.events ≡ status_changed 7 o ∷ [])
        × (now.reply ≡ ok (done, some o.id)))
process_effect_example = process_effect orm 7 message (with_order shop)

deliver_once_example :
    about "o1" (deliver orm ((7, message) ∷ (8, message) ∷ []) (with_order shop)).1 ≤ 1
deliver_once_example = deliver_once orm "o1" ((7, message) ∷ (8, message) ∷ []) (with_order shop)

process_redelivered_example :
    let t = (deliver orm [] (process_order_message orm 7 message (with_order shop)).tables).0 in
    process_order_message orm 9 message t
    ≡ record { reply = ok (deduplicated, some "o1"); tables = t; events = [] }
unfolding process_order_message in_transaction mark_processed memory
process_redelivered_example =
    process_redelivered orm 7 9 message message [] (with_order shop) done (some "o1") "o1" refl
      (λ e. cc) refl refl

abbrev updates : UpdateOrderDto
updates = record { status = some processed; idempotency_key = none }

update_order_effect_example :
    let changed = update_order orm 9 "o1" updates (with_order shop) in
    let saved : Order = record order { status = processed } in
    (saved.status ≡ processed)
    × (find_by order_id "o1" changed.tables.orders ≡ some saved)
    × ((saved.status ≡ pending) → changed.events ≡ [])
    × ((saved.status ≢ pending) → changed.events ≡ status_changed 9 saved ∷ [])
unfolding update_order update_found memory
update_order_effect_example =
    update_order_effect orm 9 "o1" updates (with_order shop) order
      (record order { status = processed }) refl refl

delete_order_gone_example :
    let left = (delete_order orm "o1" (with_order shop)).1 in
    (get_order orm "o1" left ≡ err (not_found "Order not found"))
    × ((delete_order orm "o1" left).0 ≡ err (not_found "Order not found"))
    × (((delete_order orm "o1" (with_order shop)).0 ≡ ok tt)
        ↔ ((o : Order) × (get_order orm "o1" (with_order shop) ≡ ok o)))
delete_order_gone_example = delete_order_gone orm "o1" (with_order shop)
