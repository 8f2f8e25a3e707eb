-- ===== src/Orders/Processing.antt =====
-- What `OrdersService.processOrderMessage` guarantees to a queue that delivers a message more than
-- once.
use nest_js_ecomm_rd.Base.{
  ℕ, String, ◌≡◌, ◌≢◌, ◌⊎◌, inl, inr, sym, ap, subst, ◌∙◌, false, some, List, arith, if◌then◌else◌,
  str_eq, eq_iff, eq_refl, add,
}
use nest_js_ecomm_rd.Errors.{ok, ◌>>=◌, or_throw, >>=-eq-ok, Result-cases, or_throw-eq-ok}
use nest_js_ecomm_rd.Entities.{Order, processed}
use nest_js_ecomm_rd.Database.{
  Tables, Orm, IsUpdated, find_by, replace_by, find_by-replace_by, order_id,
}
use nest_js_ecomm_rd.Orders.Message.{OrderProcessMessage}
use nest_js_ecomm_rd.Orders.Process.{
  Effect, duplicate, changed, committed, mark_processed, in_transaction,
}

-- A committed transaction that has changed an order.
pub record IsMarked (now : ℕ) (message : OrderProcessMessage) (order : Order) (t t' : Tables)
    : Type 0 where
  pub id : String
  pub message_id : message.message_id ≡ some id
  pub first : t.processed_messages id ≡ false
  pub marked : t'.processed_messages ≡ add id t.processed_messages
  pub before : Order
  pub found : find_by order_id order.id t.orders ≡ some before
  pub waiting : before.status ≢ processed
  pub after : find_by order_id order.id t'.orders ≡ some order
  pub status : order.status ≡ processed
  pub processed_at : order.processed_at ≡ some now
  pub others :
      (k : String) → k ≢ order.id → find_by order_id k t'.orders ≡ find_by order_id k t.orders

module _ (orm : Orm) where
  saved_row :
      (now : ℕ) (before saved : Order) (orders : List Order)
      → find_by order_id before.id orders ≡ some before
      → IsUpdated (record before { status = processed; processed_at = some now }) saved
      → (k : String)
      → find_by order_id k (replace_by order_id saved orders)
        ≡ (if str_eq saved.id k then some saved else find_by order_id k orders)
  saved_row now before saved orders found same k =
      find_by-replace_by order_id saved orders before k
        (subst (λ i. find_by order_id i orders ≡ some before) (sym same.id) found)

  -- The order that was found, and the order that was saved in its place.
  pub mark_processed-changed :
      (now : ℕ) (message : OrderProcessMessage) (t : Tables) (order : Order) (t' : Tables)
      → mark_processed orm now message t ≡ ok (changed order, t')
      → (before : Order) × (orm.find_order message.order_id t ≡ some before)
        × (before.status ≢ processed)
        × (orm.save_order (record before { status = processed; processed_at = some now }) t
            ≡ ok (order, t'))
  unfolding mark_processed
  mark_processed-changed now message t order t' e =
      let (before, found, rest) = >>=-eq-ok (or_throw (orm.find_order message.order_id t) _) _ e in
      (
        before,
        or_throw-eq-ok _ _ found,
        ground arith,
        elim (Result-cases
            (orm.save_order (record before { status = processed; processed_at = some now }) t)) [
              | inl ((saved, t₁), written) ↦ written ∙ ground arith
              | inr (x, failed) ↦ absurd (ground arith)
            ],
      )

  -- A transaction is a duplicate without effect, or it ends like the steps after its marker.
  pub in_transaction-cases :
      (now : ℕ) (message : OrderProcessMessage) (t : Tables) (effect : Effect) (t' : Tables)
      → in_transaction orm now message t ≡ ok (effect, t')
      → ((effect ≡ duplicate) × (t' ≡ t))
        ⊎ ((id : String) × (message.message_id ≡ some id)
            × (t.processed_messages id ≡ false)
            × (mark_processed orm now message
                  (record t { processed_messages = add id t.processed_messages })
                ≡ ok (effect, t')))
  unfolding in_transaction
  in_transaction-cases now message t effect t' e =
      elim (Result-cases (orm.insert_processed message.message_id message.order_id t)) [
        | inr (x, refused) ↦ inl (ground arith)
        | inl (t₁, marked) ↦
            let (id, own, new, added) =
              orm.insert_processed_lem message.message_id message.order_id t t₁ marked in
            let rest : (mark_processed orm now message t₁ >>= committed orm now) ≡ ok (effect, t') =
              ground arith in
            let ((effect', t₂), success, e₂) =
              >>=-eq-ok (mark_processed orm now message t₁) _ rest in
            let (t₃, written, e₃) = >>=-eq-ok (orm.commit t₂) _ e₂ in
            let kept = orm.commit_lem t₂ t₃ written in
            let same : Path (Effect × Tables) (effect', t₂) (effect, t') = ground arith in
            inr
              (id, own, new, ap (mark_processed orm now message) (sym added) ∙ success ∙ ap ok same)
      ]

  pub in_transaction-changed :
      (now : ℕ) (message : OrderProcessMessage) (t : Tables) (order : Order) (t' : Tables)
      → in_transaction orm now message t ≡ ok (changed order, t')
      → IsMarked now message order t t'
  in_transaction-changed now message t order t' e =
      elim (in_transaction-cases now message t (changed order) t' e) [
        | inl (other, _) ↦ absurd (ground arith)
        | inr (id, own, new, success) ↦
            let t₁ : Tables = record t { processed_messages = add id t.processed_messages } in
            let (before, found, waiting, saved) =
              mark_processed-changed now message t₁ order t' success in
            let (kept, written) = orm.save_order_lem _ t₁ order t' saved in
            let there = orm.find_order-stored message.order_id t₁ before found in
            let rows = saved_row now before order t.orders there kept in
            let look : (k : String)
                → find_by order_id k t'.orders
                  ≡ find_by order_id k (replace_by order_id order t.orders) =
              λ k. ap (λ (u : Tables). find_by order_id k u.orders) written in
            record {
              id = id;
              message_id = own;
              first = new;
              marked = ground arith;
              before = before;
              found = ground (arith, there, kept.id);
              waiting = waiting;
              after = look order.id ∙ rows order.id ∙ ground (arith, eq_refl order.id);
              status = kept.status;
              processed_at = kept.processed_at;
              others = λ (k : String) (apart : k ≢ order.id).
                  look k ∙ rows k ∙ ground (arith, apart, eq_iff order.id k);
            }
      ]
