-- ===== src/Orders/Placement.antt =====
-- What a successful transaction of `OrdersService.create` has done, and what `create` leaves behind
-- on each of its ways out.
use nest_js_ecomm_rd.Base.{
  ℕ, String, ◌≡◌, ◌≢◌, ◌⊎◌, inl, inr, refl, sym, ap, subst, ◌∙◌, false, Option, none, some, List,
  [], ◌∷◌, arith, eq_iff, eq_refl, All, Option-cases,
}
use nest_js_ecomm_rd.Base.Int.{pos, ◌<ℤ◌}
use nest_js_ecomm_rd.Errors.{
  Exception, Result, ok, err, or_throw, >>=-eq-ok, Result-cases, or_throw-eq-ok,
}
use nest_js_ecomm_rd.Entities.{Product, Order, OrderItem, pending}
use nest_js_ecomm_rd.Database.{
  Tables, Orm, IsSavedOrder, find_by, product_id, order_id, join_items, items_of,
}
use nest_js_ecomm_rd.Orders.Create.{
  CreateOrderItemDto, CreateOrderDto, Interference, key_of, reserve, reserve_all, transaction,
  order_created, recover, place, create, existing, Created,
}
use nest_js_ecomm_rd.Orders.Stock.{ordered, IsSold, reserve-IsReserved, reserve_all-IsSold}

-- The order that a transaction on `t` has placed, with the tables that it commits.
pub record IsPlaced (dto : CreateOrderDto) (items : List CreateOrderItemDto) (key : Option String)
    (order : Order) (t t' : Tables) : Type 0 where
  pub row : Order
  pub inserted : t'.orders ≡ row ∷ t.orders
  pub fresh : find_by order_id order.id t.orders ≡ none
  pub id : row.id ≡ order.id
  pub user_id : order.user_id ≡ dto.user_id
  pub status : order.status ≡ pending
  pub row_key : row.idempotency_key ≡ key
  pub quantities : All (λ item. pos 0 <ℤ item.quantity) items
  pub sold :
      (product : String) (p : Product)
      → find_by product_id product t.products ≡ some p
      → (q : Product) × (find_by product_id product t'.products ≡ some q)
        × IsSold (ordered product items) p q

-- The tables on which `create` begins its transaction.
abbrev pub started : Interference → Tables → Tables
started others t = others.before_transaction (others.before_user t)

-- The tables that are left by a call which has placed nothing.
abbrev pub IsUntouched : Interference → Tables → Tables → Type 0
IsUntouched others t u =
    (u ≡ t) ⊎ ((u ≡ others.before_user t) ⊎ (u ≡ others.after_rollback (started others t)))

module _ (orm : Orm) where
  -- The loop adds no order, and every quantity it accepts is positive.
  reserve_all-keeps :
      (id : String) (items : List CreateOrderItemDto) (t : Tables) (saved : List OrderItem)
      (t' : Tables)
      → reserve_all orm id items t ≡ ok (saved, t')
      → (t'.orders ≡ t.orders) × All (λ item. pos 0 <ℤ item.quantity) items
  unfolding reserve_all
  reserve_all-keeps id [] t saved t' e = (ground arith, tt)
  reserve_all-keeps id (item ∷ items) t saved t' e =
      let ((one, t₁), first, e₁) = >>=-eq-ok (reserve orm id item t) _ e in
      let ((rest, t₂), others, e₂) = >>=-eq-ok (reserve_all orm id items t₁) _ e₁ in
      let (product, found, r) = reserve-IsReserved orm id item t one t₁ first in
      let (same, positive) = reserve_all-keeps id items t₁ rest t₂ others in
      let last : t₂ ≡ t' = ground arith in
      (sym (ap (λ u. u.orders) last) ∙ same ∙ r.orders, (r.positive, positive))

  -- The row just inserted is the one that is read back.
  read_back :
      (t : Tables) (saved order : Order) (rows : List Order)
      → t.orders ≡ saved ∷ rows
      → join_items t (find_by order_id saved.id t.orders) ≡ some order
      → order ≡ record saved { items = items_of saved.id t.order_items }
  read_back t saved order rows e h = ground (arith, eq_iff saved.id saved.id, eq_refl saved.id)

  -- The facts of the single steps, put together.
  settle :
      (dto : CreateOrderDto) (items : List CreateOrderItemDto) (key : Option String)
      (t t₁ t₂ t₃ : Tables) (saved found order : Order) (t' : Tables)
      → IsSavedOrder
          (record { user_id = dto.user_id; status = pending; idempotency_key = key })
          saved
      → find_by order_id saved.id t.orders ≡ none
      → t₁ ≡ record t { orders = saved ∷ t.orders }
      → t₂.orders ≡ t₁.orders
      → All (λ item. pos 0 <ℤ item.quantity) items
      → join_items t₂ (find_by order_id saved.id t₂.orders) ≡ some found
      → ((product : String) (p : Product)
          → find_by product_id product t₁.products ≡ some p
          → (q : Product) × (find_by product_id product t₂.products ≡ some q)
            × IsSold (ordered product items) p q)
      → t₃ ≡ t₂
      → Path (Result (Order × Tables)) (ok (found, t₃)) (ok (order, t'))
      → IsPlaced dto items key order t t'
  settle dto items key t t₁ t₂ t₃ saved found order t' columns new added same positive joined sold
        committed e =
      let listed : t₂.orders ≡ saved ∷ t.orders = same ∙ ap (λ (u : Tables). u.orders) added in
      let row = read_back t₂ saved found t.orders listed joined in
      let last : t₂ ≡ t' = sym committed ∙ ground arith in
      let answer : order ≡ found = ground arith in
      let own : order.id ≡ saved.id = ap (λ (o : Order). o.id) (answer ∙ row) in
      record {
        row = saved;
        inserted = sym (ap (λ (u : Tables). u.orders) last) ∙ listed;
        fresh = subst (λ id. find_by order_id id t.orders ≡ none) (sym own) new;
        id = sym own;
        user_id = ap (λ (o : Order). o.user_id) (answer ∙ row) ∙ columns.user_id;
        status = ap (λ (o : Order). o.status) (answer ∙ row) ∙ columns.status;
        row_key = columns.idempotency_key;
        quantities = positive;
        sold = λ product p found_before.
            let (q, there, less) =
              sold product p
                (ap (λ (u : Tables). find_by product_id product u.products) added ∙ found_before) in
            (
              q,
              sym (ap (λ (u : Tables). find_by product_id product u.products) last) ∙ there,
              less,
            );
      }

  transaction-IsPlaced :
      (dto : CreateOrderDto) (items : List CreateOrderItemDto) (key : Option String) (t : Tables)
      (order : Order) (t' : Tables)
      → transaction orm dto items key t ≡ ok (order, t')
      → IsPlaced dto items key order t t'
  unfolding transaction
  transaction-IsPlaced dto items key t order t' e =
      let ((saved, t₁), inserted, e₁) = >>=-eq-ok (orm.insert_order _ t) _ e in
      let ((rows, t₂), reserved, e₂) = >>=-eq-ok (reserve_all orm saved.id items t₁) _ e₁ in
      let (found, read, e₃) = >>=-eq-ok (or_throw (orm.find_order_with_items saved.id t₂) _) _ e₂ in
      let (t₃, committed, e₄) = >>=-eq-ok (orm.commit t₂) _ e₃ in
      let (columns, new, added) = orm.insert_order_lem _ t saved t₁ inserted in
      let (same, positive) = reserve_all-keeps saved.id items t₁ rows t₂ reserved in
      let joined = sym (orm.find_order_with_items_lem saved.id t₂) ∙ or_throw-eq-ok _ _ read in
      let sold = λ (product : String) (p : Product).
        reserve_all-IsSold orm saved.id items t₁ rows t₂ product p reserved in
      settle dto items key t t₁ t₂ t₃ saved found order t' columns new added same positive joined
        sold (orm.commit_lem t₂ t₃ committed) e₄

  module _ (others : Interference) (uuid : String) (iso : ℕ → String) where
    -- The transaction has placed an order, and then `publishToQueue` has thrown: the answer is what it threw.
    abbrev pub IsUnannounced : CreateOrderDto → Option String → Tables → Created → Type 0
    IsUnannounced dto idempotency_key t after =
        (order : Order) × (items : List CreateOrderItemDto) × (error : Exception) × (dto.items
          ≡ some items)
        × IsPlaced dto items (key_of idempotency_key dto) order (started others t) after.tables
        × (others.publish (order_created uuid iso order) ≡ err error)
        × (after.reply ≡ err error)
        × (after.published ≡ [])

    -- An order that is answered as new is placed: its row, pending and under the key, is new, all
    -- quantities are positive, each product found has lost exactly what was ordered of it and has not
    -- gone below zero, and one message is published, about this order.
    pub create_places :
        (dto : CreateOrderDto) (idempotency_key : Option String) (t : Tables) (order : Order)
        (items : List CreateOrderItemDto)
        → dto.items ≡ some items
        → (create orm others uuid iso dto idempotency_key t).reply ≡ ok (order, false)
        → let after = create orm others uuid iso dto idempotency_key t in
          IsPlaced dto items (key_of idempotency_key dto) order (started others t) after.tables
          × (after.published ≡ order_created uuid iso order ∷ [])
    unfolding create place recover
    create_places dto idempotency_key t order items given e =
        let key = key_of idempotency_key dto in
        let u = started others t in
        elim (Result-cases (transaction orm dto items key u)) [
          | inr (x, failed) ↦ absurd (ground arith)
          | inl ((placed, t'), succeeded) ↦
              elim (Result-cases (others.publish (order_created uuid iso placed))) [
                | inr (x, threw) ↦ absurd (ground arith)
                | inl (taken, returned) ↦
                    let answer : placed ≡ order = ground arith in
                    let left : (create orm others uuid iso dto idempotency_key t).tables ≡ t' =
                      ground arith in
                    let sent : (create orm others uuid iso dto idempotency_key t).published
                        ≡ order_created uuid iso order ∷ [] =
                      ground arith in
                    (
                      subst (λ v. IsPlaced dto items key order u v) (sym left)
                          (subst (λ o. IsPlaced dto items key o u t') answer
                            (transaction-IsPlaced dto items key u placed t' succeeded)),
                      sent,
                    )
              ]
        ]

    -- Every other answer, the replay and each error, has published nothing, and has written nothing unless it is
    -- the error of `publishToQueue` after the commit: then the order is placed all the same.
    pub create_leaves_no_trace :
        (dto : CreateOrderDto) (idempotency_key : Option String) (t : Tables)
        → ((order : Order)
            → (create orm others uuid iso dto idempotency_key t).reply ≢ ok (order, false))
        → let after = create orm others uuid iso dto idempotency_key t in
          (IsUntouched others t after.tables × (after.published ≡ []))
          ⊎ IsUnannounced dto idempotency_key t after
    unfolding create place recover
    create_leaves_no_trace dto idempotency_key t h = go dto.items refl
      where
        key : Option String
        key = key_of idempotency_key dto

        after : Created
        after = create orm others uuid iso dto idempotency_key t

        go :
            (items : Option (List CreateOrderItemDto))
            → dto.items ≡ items
            → (IsUntouched others t after.tables × (after.published ≡ []))
              ⊎ IsUnannounced dto idempotency_key t after
        go none e = inl (ground arith, ground arith)
        go (some []) e = inl (ground arith, ground arith)
        go (some (item ∷ items)) e = elim (Option-cases (existing orm key t)) [
          | inr (stored, known) ↦ inl (ground arith, ground arith)
          | inl unknown ↦ elim (Option-cases (orm.find_user dto.user_id (others.before_user t))) [
            | inl nobody ↦ inl (ground arith, ground arith)
            | inr (user, found) ↦
                elim (Result-cases (transaction orm dto (item ∷ items) key (started others t))) [
                  | inr (x, failed) ↦ inl (ground arith, ground arith)
                  | inl ((placed, t'), succeeded) ↦
                      elim (Result-cases (others.publish (order_created uuid iso placed))) [
                        | inl (sent, returned) ↦ absurd (h placed (ground arith))
                        | inr (x, threw) ↦ inr (
                          placed,
                          item ∷ items,
                          x,
                          e,
                          subst (λ v. IsPlaced dto (item ∷ items) key placed (started others t) v)
                              (let left : t' ≡ after.tables = ground arith in left)
                              (transaction-IsPlaced dto (item ∷ items) key (started others t) placed
                                t' succeeded),
                          threw,
                          ground arith,
                          ground arith,
                        )
                      ]
                ]
          ]
        ]
