-- ===== src/Orders/Journey.antt =====
-- From the queue to the browser: messages are delivered one after the other, orders processed, events published and broadcast.
use nest_js_ecomm_rd.Base.{
  ℕ, ◌≤◌, ◌≡◌, ◌⊎◌, inl, inr, refl, sym, ap, subst, ◌∙◌, String, Bool, true, none, some, List, [],
  ◌∷◌, ◌++◌, eq_iff, filterb, filterb-All, All, length, arith, Bool-cases,
}
use nest_js_ecomm_rd.Entities.{processed}
use nest_js_ecomm_rd.Database.{Tables, Orm}
use nest_js_ecomm_rd.Orders.Message.{OrderProcessMessage, OrderStatusChangedEvent}
use nest_js_ecomm_rd.Orders.Process.{process_order_message}
use nest_js_ecomm_rd.Orders.Effects.{process_effect}
use nest_js_ecomm_rd.Orders.Deliveries
use nest_js_ecomm_rd.Orders.Deliveries.{deliver, deliver_once}
use nest_js_ecomm_rd.Orders.Events.{
  Timed, Stream, Kept, first, last, about, Operators, group_pipe, events, same_version,
}
use nest_js_ecomm_rd.Orders.Broadcast.{group_pipe-about, group_pipe-nil}
use nest_js_ecomm_rd.Realtime.{Socket, order_room, hears}

-- The events in the stream, at the time of their publication.
abbrev pub stream : List OrderStatusChangedEvent → Stream
stream [] = []
stream (e ∷ es) = record { at = e.ts; event = e } ∷ stream es

length-stream :
    (id : String) (es : List OrderStatusChangedEvent)
    → length (filterb (about id) (stream es)) ≡ Deliveries.about id es
length-stream id [] = refl
length-stream id (e ∷ es) = ground (arith, length-stream id es)

abbrev IsProcessed : Timed → Type 0
IsProcessed x = x.event.status ≡ processed

All-append :
    (xs ys : List OrderStatusChangedEvent)
    → All IsProcessed (stream xs)
    → All IsProcessed (stream ys)
    → All IsProcessed (stream (xs ++ ys))
All-append [] ys all all' = all'
All-append (x ∷ xs) ys (own, all) all' = (own, All-append xs ys all all')

filterb-IsProcessed :
    (p : Timed → Bool) (xs : Stream) → All IsProcessed xs → All IsProcessed (filterb p xs)
filterb-IsProcessed p [] all = tt
filterb-IsProcessed p (x ∷ xs) (own, all) = elim (Bool-cases (p x)) [
  | inl kept ↦ rw kept (own, filterb-IsProcessed p xs all)
  | inr dropped ↦ rw dropped (filterb-IsProcessed p xs all)
]

module _ (orm : Orm) where
  -- Every event that the consumer publishes says PROCESSED.
  deliver-IsProcessed :
      (messages : List (ℕ × OrderProcessMessage)) (t : Tables)
      → All IsProcessed (stream (deliver orm messages t).1)
  unfolding deliver
  deliver-IsProcessed [] t = tt
  deliver-IsProcessed ((now, message) ∷ messages) t =
      let after = process_order_message orm now message t in
      let rest = deliver-IsProcessed messages after.tables in
      All-append after.events (deliver orm messages after.tables).1
        (elim (process_effect orm now message t) [
          | inl (same, silent, _) ↦ subst (λ es. All IsProcessed (stream es)) (sym silent) tt
          | inr (order, marked, told, _) ↦
              subst (λ es. All IsProcessed (stream es)) (sym told) (marked.status, tt)
        ])
        rest

only : (x : Timed) (ys : Stream) → Kept same_version none (x ∷ []) ys → ys ≡ x ∷ []
only x [] kept = elim kept [ ]
only x (_ ∷ []) (first rest) = refl
only x (_ ∷ y ∷ ys) (first rest) = elim rest [ ]

single : (ys : Stream) (y : Timed) → last ys ≡ some y → length ys ≤ 1 → ys ≡ y ∷ []
single [] y h short = absurd (cc)
single (z ∷ []) y h short = ground arith
single (z ∷ w ∷ ws) y h short = absurd (omega arith)

module _ (ops : Operators) where
  -- One event goes through the pipe of its group alone.
  pipe_of_one : (x : Timed) → (y : Timed) × (group_pipe ops (x ∷ []) ≡ y ∷ []) × (y.event ≡ x.event)
  unfolding group_pipe
  pipe_of_one x =
      let same = only x _ (ops.distinct-Kept same_version (x ∷ [])) in
      let (y, there, event) = ops.throttle-last 300 (x ∷ []) x refl in
      let short = ops.length-throttle-le 300 (x ∷ []) in
      (y, ap (ops.throttle 300) same ∙ single _ y there short, event)

  -- When messages are processed one after the other, however often and in whatever order they are
  -- delivered, the stream sends at most one message about an order, exactly if an event about it was
  -- published; a connected socket in the room of the order hears it, and it says that the order is
  -- PROCESSED.
  pub processed_heard_once :
      (orm : Orm) (id : String) (messages : List (ℕ × OrderProcessMessage)) (t : Tables)
      (client : Socket)
      → client.connected ≡ true
      → client.rooms (order_room id) ≡ true
      → let published = (deliver orm messages t).1 in
        let sent = filterb (about id) (events ops (stream published)) in
        ((Deliveries.about id published ≡ 0) × (sent ≡ []))
        ⊎ ((Deliveries.about id published ≡ 1)
            × ((y : Timed) × (sent ≡ y ∷ [])
                × (y.event.order_id ≡ id)
                × (y.event.status ≡ processed)
                × (hears y.event client ≡ true)))
  unfolding events
  processed_heard_once orm id messages t client connected joined =
      let published = (deliver orm messages t).1 in
      let merged =
        ops.group_merge-about (group_pipe ops) id (stream published) (group_pipe-nil ops)
          (group_pipe-about ops) in
      go (filterb (about id) (stream published)) (length-stream id published)
        (deliver_once orm id messages t)
        (filterb-IsProcessed (about id) (stream published) (deliver-IsProcessed orm messages t))
        (filterb-All (about id) (stream published)) merged
    where
      published : List OrderStatusChangedEvent
      published = (deliver orm messages t).1

      sent : Stream
      sent = filterb (about id) (events ops (stream published))

      go :
          (mine : Stream)
          → length mine ≡ Deliveries.about id published
          → Deliveries.about id published ≤ 1
          → All IsProcessed mine
          → All (λ x. about id x ≡ true) mine
          → sent ≡ group_pipe ops mine
          → ((Deliveries.about id published ≡ 0) × (sent ≡ []))
            ⊎ ((Deliveries.about id published ≡ 1)
                × ((y : Timed) × (sent ≡ y ∷ [])
                    × (y.event.order_id ≡ id)
                    × (y.event.status ≡ processed)
                    × (hears y.event client ≡ true)))
      go [] count few said own merged = inl (omega (arith, count), merged ∙ group_pipe-nil ops)
      go (x ∷ []) count few (said, _) (own, _) merged =
          let (y, out, same) = pipe_of_one x in
          let named : x.event.order_id ≡ id = ground (arith, eq_iff x.event.order_id id) in
          let about_it : y.event.order_id ≡ id = ap (λ e. e.order_id) same ∙ named in
          let room = ap (λ i. client.rooms (order_room i)) about_it ∙ joined in
          inr (
            omega (arith, count),
            (
              y,
              merged ∙ out,
              about_it,
              ap (λ e. e.status) same ∙ said,
              ground (arith, connected, room),
            ),
          )
      go (x ∷ w ∷ ws) count few said own merged = absurd (omega (arith, count, few))
