-- ===== src/Orders/Replay.antt =====
-- Calls of `OrdersService.create` that share an idempotency key: one after the other, and at once.
use nest_js_ecomm_rd.Base.{
  ℕ, String, ◌≡◌, inl, inr, refl, ◌∙◌, true, false, Option, none, some, List, [], ◌∷◌, arith,
  eq_refl, Option-cases, truthy,
}
use nest_js_ecomm_rd.Errors.{ok, err}
use nest_js_ecomm_rd.Entities.{User, Order, pending}
use nest_js_ecomm_rd.Database.{
  Tables, Orm, order_by_key, items_of, join_items, unique_violation, find_by, user_id,
}
use nest_js_ecomm_rd.Orders.Create.{
  CreateOrderItemDto, CreateOrderDto, Interference, key_of, transaction, recover, place, create,
}
use nest_js_ecomm_rd.Orders.Placement.{started, create_places}

module _ (orm : Orm) (others : Interference) (uuid : String) (iso : ℕ → String) where
  -- Nothing is written when the key is known.
  known_key :
      (dto : CreateOrderDto) (idempotency_key : Option String) (key : String) (t : Tables)
      (stored : Order)
      → truthy (key_of idempotency_key dto) ≡ some key
      → order_by_key key t.orders ≡ some stored
      → (answer : Order) × (join_items t (some stored) ≡ some answer)
        × (create orm others uuid iso dto idempotency_key t
            ≡ record { reply = ok (answer, true); tables = t; published = [] })
  unfolding create
  known_key dto idempotency_key key t stored e h =
      (_, refl, ground (arith, orm.find_order_by_key_lem key t))

  -- Two calls after one another with one idempotency key, the second with any body: if the first has
  -- placed an order, the second answers with the order of the same id, flagged as not new; it changes
  -- no table and publishes nothing.
  pub create_twice :
      (dto dto' : CreateOrderDto) (idempotency_key idempotency_key' : Option String) (key : String)
      (t : Tables) (order : Order) (items : List CreateOrderItemDto)
      → key_of idempotency_key dto ≡ some key
      → truthy (key_of idempotency_key' dto') ≡ some key
      → dto.items ≡ some items
      → (create orm others uuid iso dto idempotency_key t).reply ≡ ok (order, false)
      → let t' = (create orm others uuid iso dto idempotency_key t).tables in
        (again : Order) × (again.id ≡ order.id)
        × (create orm others uuid iso dto' idempotency_key' t'
            ≡ record { reply = ok (again, true); tables = t'; published = [] })
  create_twice dto dto' idempotency_key idempotency_key' key t order items e e' given first =
      let t' = (create orm others uuid iso dto idempotency_key t).tables in
      let (placed, _) =
        create_places orm others uuid iso dto idempotency_key t order items given first in
      let stored : order_by_key key t'.orders ≡ some placed.row =
        ground (arith, placed.inserted, placed.row_key, eq_refl key) in
      let (again, joined, replayed) = known_key dto' idempotency_key' key t' placed.row e' stored in
      (again, ground (arith, joined, placed.id), replayed)

  -- The unique index refuses the transaction.
  taken_key :
      (dto : CreateOrderDto) (items : List CreateOrderItemDto) (key : String) (t : Tables)
      (o : Order)
      → order_by_key key t.orders ≡ some o
      → transaction orm dto items (some key) t ≡ err unique_violation
  unfolding transaction
  taken_key dto items key t o h =
      let refused =
        orm.insert_order-unique
          (record { user_id = dto.user_id; status = pending; idempotency_key = some key }) t key o
          refl h in
      rw refused refl

  -- Two calls at once with one idempotency key: if the other one commits its order after this one has
  -- looked for the key and before its transaction, this one runs into the unique index, is rolled back,
  -- and answers with the stored order, flagged as not new; it publishes nothing. The body has items, the
  -- user is known, and the order of the other one is still there after the rollback.
  pub create_race :
      (dto : CreateOrderDto) (idempotency_key : Option String) (key : String) (t : Tables)
      (item : CreateOrderItemDto) (items : List CreateOrderItemDto) (user : User)
      (winner kept : Order)
      → truthy (key_of idempotency_key dto) ≡ some key
      → dto.items ≡ some (item ∷ items)
      → find_by user_id dto.user_id (others.before_user t).users ≡ some user
      → order_by_key key t.orders ≡ none
      → order_by_key key (started others t).orders ≡ some winner
      → order_by_key key (others.after_rollback (started others t)).orders ≡ some kept
      → (again : Order) × (again.id ≡ kept.id)
        × (create orm others uuid iso dto idempotency_key t ≡ record {
          reply = ok (again, true);
          tables = others.after_rollback (started others t);
          published = [];
        })
  unfolding create place recover
  create_race dto idempotency_key key t item items user winner kept e given registered unknown won
        stays =
      let same : key_of idempotency_key dto ≡ some key = ground arith in
      let refused : transaction orm dto (item ∷ items) (key_of idempotency_key dto)
            (started others t)
          ≡ err unique_violation =
        rw same (taken_key dto (item ∷ items) key (started others t) winner won) in
      let found = orm.find_user_lem dto.user_id (others.before_user t) ∙ registered in
      let before = orm.find_order_by_key_lem key t in
      let after = orm.find_order_by_key_lem key (others.after_rollback (started others t)) in
      (
        record kept {
          items = items_of kept.id (others.after_rollback (started others t)).order_items;
        },
        refl,
        ground (arith, refused, found, before, after, unknown, stays, eq_refl "23505"),
      )

  -- An order is placed under a key only when no order has it at the start of the transaction.
  create_key_unused :
      (dto : CreateOrderDto) (idempotency_key : Option String) (key : String) (t : Tables)
      (order : Order) (items : List CreateOrderItemDto)
      → key_of idempotency_key dto ≡ some key
      → dto.items ≡ some items
      → (create orm others uuid iso dto idempotency_key t).reply ≡ ok (order, false)
      → order_by_key key (started others t).orders ≡ none
  unfolding create place recover
  create_key_unused dto idempotency_key key t order items e given new =
      elim (Option-cases (order_by_key key (started others t).orders)) [
        | inl unused ↦ unused
        | inr (winner, won) ↦
            let refused = taken_key dto items key (started others t) winner won in
            absurd (ground arith)
      ]
