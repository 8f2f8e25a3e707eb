-- ===== src/Orders/EventTests.antt =====
-- Status events of two orders on the way to a socket.
use nest_js_ecomm_rd.Base.{
  ◌⊎◌, List, ℕ, String, ◌≡◌, refl, true, false, some, [], ◌∷◌, add, filterb, All,
}
use nest_js_ecomm_rd.Entities.{OrderStatus, pending, processed, paid}
use nest_js_ecomm_rd.Realtime.{Socket, order_room, hears, new_socket}
use nest_js_ecomm_rd.Orders.Events.{Timed, Stream, last, IsSpaced, about, events, group_pipe}
use nest_js_ecomm_rd.Orders.Broadcast.{last_version_heard}
use nest_js_ecomm_rd.Orders.Rxjs.{operators}
use nest_js_ecomm_rd.Orders.Message.{OrderProcessMessage}
use nest_js_ecomm_rd.Orders.Create.{order_created}
use nest_js_ecomm_rd.Orders.Process.{process_order_message, in_transaction, mark_processed}
use nest_js_ecomm_rd.Database.{memory}
use nest_js_ecomm_rd.Orders.Deliveries
use nest_js_ecomm_rd.Orders.Deliveries.{deliver}
use nest_js_ecomm_rd.Orders.Journey.{stream, processed_heard_once}
use nest_js_ecomm_rd.Orders.Shop.{shop, with_order, order, orm, iso}

abbrev at : ℕ → String → OrderStatus → ℕ → Timed
at time id status version = record {
  at = time;
  event = record { order_id = id; status = status; version = version; ts = time };
}

abbrev two_orders : Stream
two_orders = at 0 "o1" pending 1 ∷ at 5 "o2" pending 7 ∷ at 20 "o1" paid 2 ∷ at 30 "o1" paid 2 ∷ []

abbrev client : Socket
client = record new_socket { connected = true; rooms = add (order_room "o1") (λ room. false) }

-- The first event goes out at once, the last one when the window closes.
sent_example :
    filterb (about "o1") (events operators two_orders)
    ≡ at 0 "o1" pending 1 ∷ record (at 20 "o1" paid 2) { at = 300 } ∷ []
unfolding events group_pipe
sent_example = refl

last_version_heard_example :
    let sent = filterb (about "o1") (events operators two_orders) in
    (y : Timed) × (last sent ≡ some y)
    × (y.event.version ≡ 2)
    × IsSpaced 300 sent
    × All (λ z. hears z.event client ≡ true) sent
last_version_heard_example =
    last_version_heard operators "o1" two_orders (at 30 "o1" paid 2) client refl refl refl

-- The message of an order arrives twice.
abbrev twice : List (ℕ × OrderProcessMessage)
twice = (7, order_created "m1" iso order) ∷ (9, order_created "m1" iso order) ∷ []

processed_heard_once_example :
    let published = (deliver orm twice (with_order shop)).1 in
    let sent = filterb (about "o1") (events operators (stream published)) in
    ((Deliveries.about "o1" published ≡ 0) × (sent ≡ []))
    ⊎ ((Deliveries.about "o1" published ≡ 1)
        × ((y : Timed) × (sent ≡ y ∷ [])
            × (y.event.order_id ≡ "o1")
            × (y.event.status ≡ processed)
            × (hears y.event client ≡ true)))
processed_heard_once_example =
    processed_heard_once operators orm "o1" twice (with_order shop) client refl refl

told_once : Deliveries.about "o1" (deliver orm twice (with_order shop)).1 ≡ 1
unfolding deliver process_order_message in_transaction mark_processed memory
told_once = refl
