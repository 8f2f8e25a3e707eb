-- ===== src/Orders/Response.antt =====
-- The response to `POST /orders`, and what a `GET` finds afterwards.
use nest_js_ecomm_rd.Base.{
  ℕ, String, ◌≡◌, ◌⊎◌, inl, inr, refl, sym, ap, ◌∙◌, false, Option, none, some, List, [], ◌∷◌,
  arith, Option-cases, Bool-cases,
}
use nest_js_ecomm_rd.Errors.{not_found, ok, or_throw, >>=-eq-ok, or_throw-eq-ok, Result-cases}
use nest_js_ecomm_rd.Entities.{Order}
use nest_js_ecomm_rd.Database.{Tables, Orm, find_by, find_by-key, order_id, join_items}
use nest_js_ecomm_rd.Orders.Create.{
  CreateOrderItemDto, CreateOrderDto, Interference, key_of, order_created, transaction, reserve_all,
  place, recover, create,
}
use nest_js_ecomm_rd.Orders.Placement.{started, IsUntouched, create_leaves_no_trace}
use nest_js_ecomm_rd.Orders.Manage.{get_order}
use nest_js_ecomm_rd.Orders.Controller.{create_order}

joined_id :
    (id : String) (rows : List Order) (t : Tables) (o : Order)
    → join_items t (find_by order_id id rows) ≡ some o
    → o.id ≡ id
joined_id id rows t o h = elim (Option-cases (find_by order_id id rows)) [
  | inl missing ↦ absurd (ground (arith, missing))
  | inr (row, found) ↦
      let same = find_by-key order_id id rows row found in ground (arith, found, same)
]

module _ (orm : Orm) where
  -- The order that a transaction answers is the one that is read under its identifier afterwards.
  transaction-get_order :
      (dto : CreateOrderDto) (items : List CreateOrderItemDto) (key : Option String) (t : Tables)
      (order : Order) (t' : Tables)
      → transaction orm dto items key t ≡ ok (order, t')
      → get_order orm order.id t' ≡ ok order
  unfolding transaction get_order
  transaction-get_order dto items key t order t' e =
      let ((saved, t₁), inserted, e₁) = >>=-eq-ok (orm.insert_order _ t) _ e in
      let ((rows, t₂), reserved, e₂) = >>=-eq-ok (reserve_all orm saved.id items t₁) _ e₁ in
      let (found, read, e₃) = >>=-eq-ok (or_throw (orm.find_order_with_items saved.id t₂) _) _ e₂ in
      let (t₃, committed, e₄) = >>=-eq-ok (orm.commit t₂) _ e₃ in
      let there = or_throw-eq-ok _ _ read in
      let own =
        joined_id saved.id t₂.orders t₂ found
          (sym (orm.find_order_with_items_lem saved.id t₂) ∙ there) in
      let same = orm.commit_lem t₂ t₃ committed in
      let answer : found ≡ order = ground (arith, e₄) in
      let left : t₂ ≡ t' = sym same ∙ ground (arith, e₄) in
      let asked : order.id ≡ saved.id = sym (ap (λ o. o.id) answer) ∙ own in
      ap (λ id. or_throw (orm.find_order_with_items id t') (not_found "Order not found")) asked
      ∙ ap (λ u. or_throw (orm.find_order_with_items saved.id u) (not_found "Order not found"))
          (sym left)
      ∙ ap (λ o. or_throw o (not_found "Order not found")) there
      ∙ ap ok answer

  module _ (others : Interference) (uuid : String) (iso : ℕ → String) where
    create-get_order :
        (dto : CreateOrderDto) (idempotency_key : Option String) (t : Tables) (order : Order)
        → (create orm others uuid iso dto idempotency_key t).reply ≡ ok (order, false)
        → let after = create orm others uuid iso dto idempotency_key t in
          (get_order orm order.id after.tables ≡ ok order)
          × (after.published ≡ order_created uuid iso order ∷ [])
    unfolding create place recover
    create-get_order dto idempotency_key t order h = go dto.items refl
      where
        go :
            (items : Option (List CreateOrderItemDto))
            → dto.items ≡ items
            → let after = create orm others uuid iso dto idempotency_key t in
              (get_order orm order.id after.tables ≡ ok order)
              × (after.published ≡ order_created uuid iso order ∷ [])
        go none e = absurd (ground arith)
        go (some []) e = absurd (ground arith)
        go (some (item ∷ items)) e =
            elim (Result-cases (
              transaction orm dto (item ∷ items) (key_of idempotency_key dto) (started others t))) [
                | inr (x, failed) ↦ absurd (ground arith)
                | inl ((placed, t'), succeeded) ↦
                    let read = transaction-get_order dto (item ∷ items) _ _ placed t' succeeded in
                    elim (Result-cases (others.publish (order_created uuid iso placed))) [
                      | inl (sent, returned) ↦ (ground (arith, read), ground arith)
                      | inr (x, threw) ↦ absurd (ground arith)
                    ]
              ]

    -- `POST /orders` answers 201 for a new order, which `GET` then finds as it was answered and about which
    -- one message is published, or 200 for an order that was placed before, with nothing written and
    -- nothing published; there is no other success.
    pub create_order_response :
        (body : CreateOrderDto) (idempotency_key : Option String) (t : Tables) (status : ℕ)
        (order : Order)
        → let (reply, after) = create_order orm others uuid iso body idempotency_key t in
          reply ≡ ok (status, order)
          → ((status ≡ 201)
              × (get_order orm order.id after.tables ≡ ok order)
              × (after.published ≡ order_created uuid iso order ∷ []))
            ⊎ ((status ≡ 200) × IsUntouched others t after.tables × (after.published ≡ []))
    unfolding create_order
    create_order_response body idempotency_key t status order h =
        let ((made, was_duplicate), answered, shown) =
          >>=-eq-ok (create orm others uuid iso body idempotency_key t).reply _ h in
        let same : made ≡ order = ground (arith, shown) in
        elim (Bool-cases was_duplicate) [
          | inl old ↦
              elim (create_leaves_no_trace orm others uuid iso body idempotency_key t
                (λ o e. ground (arith, answered, e, old))) [
                  | inl (untouched, silent) ↦ inr (ground (arith, shown, old), untouched, silent)
                  | inr (_, _, _, _, _, _, refused, _) ↦ absurd (ground (arith, answered, refused))
                ]
          | inr new ↦
              let reply : (create orm others uuid iso body idempotency_key t).reply
                  ≡ ok (order, false) =
                answered ∙ ap (λ o. ok (o, was_duplicate)) same ∙ ap (λ b. ok (order, b)) new in
              let (read, sent) = create-get_order body idempotency_key t order reply in
              inl (ground (arith, shown, new), read, sent)
        ]
