-- ===== src/Orders/Deliveries.antt =====
-- Messages that a queue delivers more than once, and in any order, to
-- `OrdersService.processOrderMessage`, one after the other.
use nest_js_ecomm_rd.Base.{
  ℕ, String, ◌≡◌, ◌≢◌, inl, inr, refl, ap, ◌∙◌, ◌≤◌, ◌+◌, Bool, true, Option, some, List, [], ◌∷◌,
  arith, if◌then◌else◌, str_eq, eq_iff, eq_refl, Bool-cases, ◌++◌,
}
use nest_js_ecomm_rd.Errors.{ok}
use nest_js_ecomm_rd.Entities.{Order, processed}
use nest_js_ecomm_rd.Database.{Tables, Orm, find_by, order_id}
use nest_js_ecomm_rd.Orders.Message.{OrderProcessMessage, OrderStatusChangedEvent}
use nest_js_ecomm_rd.Orders.Process.{Outcome, deduplicated, in_transaction, process_order_message}
use nest_js_ecomm_rd.Orders.Effects.{process_effect, process-marks}

-- How many of the events are about one order.
abbrev pub about : String → List OrderStatusChangedEvent → ℕ
about id [] = 0
about id (event ∷ events) =
    if str_eq event.order_id id then 1 + about id events else about id events

pub about-++ :
    (id : String) (xs ys : List OrderStatusChangedEvent)
    → about id (xs ++ ys) ≡ about id xs + about id ys
about-++ id [] ys = ground arith
about-++ id (x ∷ xs) ys = ground (arith, about-++ id xs ys)

module _ (orm : Orm) where
  -- Deliveries one after another, each at its time.
  unfoldable pub deliver :
      List (ℕ × OrderProcessMessage) → Tables → Tables × List OrderStatusChangedEvent
  deliver [] t = (t, [])
  deliver ((now, message) ∷ messages) t =
      let one = process_order_message orm now message t in
      let (t', events) = deliver messages one.tables in (t', one.events ++ events)

  -- The order is there and processed.
  abbrev IsSettled : String → Tables → Type 0
  IsSettled id t = (o : Order) × (find_by order_id id t.orders ≡ some o) × (o.status ≡ processed)

  process-IsSettled :
      (id : String) (now : ℕ) (message : OrderProcessMessage) (t : Tables)
      → IsSettled id t
      → let after = process_order_message orm now message t in
        IsSettled id after.tables × (about id after.events ≡ 0)
  process-IsSettled id now message t (o, found, settled) = elim (process_effect orm now message t) [
    | inl (same, silent, _) ↦
        ((o, ap (find_by order_id id) same ∙ found, settled), ground (arith, silent))
    | inr (order, marked, told, _) ↦ elim (Bool-cases (str_eq order.id id)) [
      | inl hit ↦
          absurd
            (ground (arith, hit, eq_iff order.id id, marked.found, marked.waiting, found, settled))
      | inr miss ↦ (
        (
          o,
          marked.others id (ground (arith, miss, eq_iff order.id id, eq_refl id)) ∙ found,
          settled,
        ),
        ground (arith, told, miss),
      )
    ]
  ]

  deliver-IsSettled :
      (id : String) (messages : List (ℕ × OrderProcessMessage)) (t : Tables)
      → IsSettled id t
      → about id (deliver messages t).1 ≡ 0
  unfolding deliver
  deliver-IsSettled id [] t h = refl
  deliver-IsSettled id ((now, message) ∷ messages) t h =
      let (h', silent) = process-IsSettled id now message t h in
      let later =
        deliver-IsSettled id messages (process_order_message orm now message t).tables h' in
      about-++ id (process_order_message orm now message t).events
        (deliver messages (process_order_message orm now message t).tables).1
      ∙ ground (arith, silent, later)

  -- When messages are processed one after the other, however often and in whatever order they are delivered, at
  -- most one event about an order is published.
  pub deliver_once :
      (id : String) (messages : List (ℕ × OrderProcessMessage)) (t : Tables)
      → about id (deliver messages t).1 ≤ 1
  unfolding deliver
  deliver_once id [] t = omega arith
  deliver_once id ((now, message) ∷ messages) t =
      let after = process_order_message orm now message t in
      let both = about-++ id after.events (deliver messages after.tables).1 in
      elim (process_effect orm now message t) [
        | inl (same, silent, _) ↦
            let later = deliver_once id messages after.tables in ground (arith, both, silent, later)
        | inr (order, marked, told, _) ↦ elim (Bool-cases (str_eq order.id id)) [
          | inl hit ↦
              let h : IsSettled id after.tables =
                (order, rw⁻¹ ((eq_iff order.id id).0 hit) marked.after, marked.status) in
              let later = deliver-IsSettled id messages after.tables h in
              ground (arith, both, told, hit, later)
          | inr miss ↦
              let later = deliver_once id messages after.tables in
              ground (arith, both, told, miss, later)
        ]
      ]

  process-keeps :
      (now : ℕ) (message : OrderProcessMessage) (t : Tables) (k : String)
      → t.processed_messages k ≡ true
      → (process_order_message orm now message t).tables.processed_messages k ≡ true
  process-keeps now message t k h = elim (process-marks orm now message t) [
    | inl (same, _) ↦ ap (λ (f : String → Bool). f k) same ∙ h
    | inr (id, own, stored) ↦ ap (λ (f : String → Bool). f k) stored ∙ ground (arith, h)
  ]

  deliver-keeps :
      (messages : List (ℕ × OrderProcessMessage)) (t : Tables) (k : String)
      → t.processed_messages k ≡ true
      → (deliver messages t).0.processed_messages k ≡ true
  unfolding deliver
  deliver-keeps [] t k h = h
  deliver-keeps ((now, message) ∷ messages) t k h =
      deliver-keeps messages (process_order_message orm now message t).tables k
        (process-keeps now message t k h)

  known_message :
      (now : ℕ) (message : OrderProcessMessage) (t : Tables) (id order : String)
      → message.message_id ≡ some id
      → message.order_id ≡ some order
      → t.processed_messages id ≡ true
      → process_order_message orm now message t
        ≡ record { reply = ok (deduplicated, some order); tables = t; events = [] }
  unfolding process_order_message in_transaction
  known_message now message t id order own its h =
      let refused = orm.insert_processed-unique id order t h in ground (arith, eq_refl "23505")

  -- Once a message has been processed (and was not a duplicate), any later delivery of its identifier,
  -- after any deliveries in between, is answered as deduplicated: no table changes and no event is
  -- published. The later message names an order.
  pub process_redelivered :
      (now now' : ℕ) (message again : OrderProcessMessage)
      (messages : List (ℕ × OrderProcessMessage)) (t : Tables) (outcome : Outcome)
      (answered : Option String) (order : String)
      → (process_order_message orm now message t).reply ≡ ok (outcome, answered)
      → outcome ≢ deduplicated
      → again.message_id ≡ message.message_id
      → again.order_id ≡ some order
      → let t' = (deliver messages (process_order_message orm now message t).tables).0 in
        process_order_message orm now' again t'
        ≡ record { reply = ok (deduplicated, some order); tables = t'; events = [] }
  process_redelivered now now' message again messages t outcome answered order e fresh same its =
      let after = process_order_message orm now message t in
      elim (process-marks orm now message t) [
        | inl (_, only) ↦ absurd (fresh (only outcome answered e))
        | inr (id, own, stored) ↦
            let marked : after.tables.processed_messages id ≡ true =
              ap (λ (f : String → Bool). f id) stored ∙ ground (arith, eq_refl id) in
            known_message now' again (deliver messages after.tables).0 id order (same ∙ own) its
              (deliver-keeps messages after.tables id marked)
      ]
