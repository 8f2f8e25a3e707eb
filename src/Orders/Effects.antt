-- ===== src/Orders/Effects.antt =====
-- What one call of `OrdersService.processOrderMessage` does to the orders, the markers and the events.
use nest_js_ecomm_rd.Base.{
  ℕ, String, ◌≡◌, ◌≢◌, ◌⊎◌, inl, inr, refl, ap, subst, Option, some, [], ◌∷◌, arith, add,
}
use nest_js_ecomm_rd.Errors.{Result, ok, err, Result-cases}
use nest_js_ecomm_rd.Entities.{Order}
use nest_js_ecomm_rd.Database.{Tables, Orm}
use nest_js_ecomm_rd.Orders.Message.{OrderProcessMessage}
use nest_js_ecomm_rd.Orders.Process.{
  Effect, duplicate, unchanged, changed, Outcome, done, deduplicated, mark_processed,
  in_transaction, status_changed, process_order_message,
}
use nest_js_ecomm_rd.Orders.Processing.{
  IsMarked, mark_processed-changed, in_transaction-cases, in_transaction-changed,
}

module _ (orm : Orm) where
  mark_processed-markers :
      (now : ℕ) (message : OrderProcessMessage) (t : Tables) (effect : Effect) (t' : Tables)
      → mark_processed orm now message t ≡ ok (effect, t')
      → t'.processed_messages ≡ t.processed_messages
  unfolding mark_processed
  mark_processed-markers now message t duplicate t' e = ground arith
  mark_processed-markers now message t (unchanged o) t' e = ground arith
  mark_processed-markers now message t (changed o) t' e =
      let (before, found, waiting, saved) = mark_processed-changed orm now message t o t' e in
      let (kept, written) = orm.save_order_lem _ t o t' saved in
      ap (λ (u : Tables). u.processed_messages) written

  mark_processed-not_duplicate :
      (now : ℕ) (message : OrderProcessMessage) (t t' : Tables)
      → mark_processed orm now message t ≢ ok (duplicate, t')
  unfolding mark_processed
  mark_processed-not_duplicate now message t t' e = ground arith

  -- Without a change, the orders are as before.
  mark_processed-orders :
      (now : ℕ) (message : OrderProcessMessage) (t : Tables) (o : Order) (t' : Tables)
      → mark_processed orm now message t ≡ ok (unchanged o, t')
      → t'.orders ≡ t.orders
  unfolding mark_processed
  mark_processed-orders now message t o t' e = ground arith

  in_transaction-orders :
      (now : ℕ) (message : OrderProcessMessage) (t : Tables) (o : Order) (t' : Tables)
      → in_transaction orm now message t ≡ ok (unchanged o, t')
      → t'.orders ≡ t.orders
  in_transaction-orders now message t o t' e =
      elim (in_transaction-cases orm now message t (unchanged o) t' e) [
        | inl (other, _) ↦ absurd (ground arith)
        | inr (id, own, new, success) ↦ mark_processed-orders now message _ o t' success
      ]

  -- A delivery either changes no order, publishes nothing and does not answer `processed`; or it stores
  -- a new marker, turns one order that was not PROCESSED into PROCESSED at the present time, leaves the
  -- other orders alone, and publishes one event, about that order.
  pub process_effect :
      (now : ℕ) (message : OrderProcessMessage) (t : Tables)
      → let after = process_order_message orm now message t in
        ((after.tables.orders ≡ t.orders)
          × (after.events ≡ [])
          × ((id : Option String) → after.reply ≢ ok (done, id)))
        ⊎ ((order : Order) × IsMarked now message order t after.tables
            × (after.events ≡ status_changed now order ∷ [])
            × (after.reply ≡ ok (done, some order.id)))
  unfolding process_order_message
  process_effect now message t = go (in_transaction orm now message t) refl
    where
      go :
          (r : Result (Effect × Tables))
          → in_transaction orm now message t ≡ r
          → let after = process_order_message orm now message t in
            ((after.tables.orders ≡ t.orders)
              × (after.events ≡ [])
              × ((id : Option String) → after.reply ≢ ok (done, id)))
            ⊎ ((order : Order) × IsMarked now message order t after.tables
                × (after.events ≡ status_changed now order ∷ [])
                × (after.reply ≡ ok (done, some order.id)))
      go (err x) e = inl (ground arith, ground arith, λ id h. ground arith)
      go (ok (duplicate, t')) e = elim (in_transaction-cases orm now message t duplicate t' e) [
        | inl (_, same) ↦ inl (ground arith, ground arith, λ id h. ground arith)
        | inr (id, own, new, success) ↦
            absurd (mark_processed-not_duplicate now message _ t' success)
      ]
      go (ok (unchanged o, t')) e =
          let same = in_transaction-orders now message t o t' e in
          inl (ground arith, ground arith, λ id h. ground arith)
      go (ok (changed o, t')) e =
          let left : t' ≡ (process_order_message orm now message t).tables = ground arith in
          let marked = in_transaction-changed orm now message t o t' e in
          inr (o, subst (λ u. IsMarked now message o t u) left marked, ground arith, ground arith)

  -- A delivery that was not a duplicate and did not fail has stored its marker.
  pub process-marks :
      (now : ℕ) (message : OrderProcessMessage) (t : Tables)
      → let after = process_order_message orm now message t in
        ((after.tables.processed_messages ≡ t.processed_messages)
          × ((outcome : Outcome) (answered : Option String)
              → after.reply ≡ ok (outcome, answered)
              → outcome ≡ deduplicated))
        ⊎ ((id : String) × (message.message_id ≡ some id)
            × (after.tables.processed_messages ≡ add id t.processed_messages))
  unfolding process_order_message
  process-marks now message t = elim (Result-cases (in_transaction orm now message t)) [
    | inr (x, failed) ↦ inl (ground arith, λ outcome answered e. absurd (ground arith))
    | inl ((effect, t'), success) ↦
        elim (in_transaction-cases orm now message t effect t' success) [
          | inl (same, kept) ↦ inl (ground arith, λ outcome answered e. ground arith)
          | inr (id, own, new, rest) ↦
              let stored = mark_processed-markers now message _ effect t' rest in
              inr (id, own, ground arith)
        ]
  ]
