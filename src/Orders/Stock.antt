-- ===== src/Orders/Stock.antt =====
-- Stock: an order takes exactly what it sells, and never more than there is.
use nest_js_ecomm_rd.Base.{
  inl, inr, String, ◌≡◌, refl, sym, ap, subst, ◌∙◌, some, List, [], ◌∷◌, arith, if◌then◌else◌,
  str_eq, eq_iff, Bool-cases,
}
use nest_js_ecomm_rd.Base.Int.{ℤ, pos, ◌+ℤ◌, ◌-ℤ◌, ◌≤ℤ◌, ◌<ℤ◌, int_laws}
use nest_js_ecomm_rd.Errors.{ok, or_throw, >>=-eq-ok, Result-cases, or_throw-eq-ok}
use nest_js_ecomm_rd.Entities.{Product, OrderItem}
use nest_js_ecomm_rd.Database.{
  Tables, Orm, IsSavedItem, find_by, replace_by, find_by-key, find_by-replace_by, product_id,
}
use nest_js_ecomm_rd.Orders.Create.{
  CreateOrderItemDto, reserve_found, reserve, reserve_all, new_item,
}

-- What the items ask of one product.
abbrev pub ordered : String → List CreateOrderItemDto → ℤ
ordered id [] = pos 0
ordered id (item ∷ items) =
    if str_eq item.product_id id then item.quantity +ℤ ordered id items else ordered id items

ordered-cons :
    (id : String) (item : CreateOrderItemDto) (items : List CreateOrderItemDto)
    → (if str_eq item.product_id id then item.quantity else pos 0) +ℤ ordered id items
      ≡ ordered id (item ∷ items)
ordered-cons id item items = elim (Bool-cases (str_eq item.product_id id)) [
  | inl hit ↦ rw hit
  | inr miss ↦ rw miss (omega int_laws)
]

-- How one product stands before and after a sale of `n` pieces.
pub record IsSold (n : ℤ) (p q : Product) : Type 0 where
  pub same : q ≡ record p { stock = q.stock }
  pub taken : p.stock ≡ q.stock +ℤ n
  pub enough : pos 0 ≤ℤ p.stock → pos 0 ≤ℤ q.stock

abbrev lowered : ℤ → Product → Product
lowered n p = record p { stock = p.stock -ℤ n }

lowered-IsSold : (n : ℤ) (p : Product) → n ≤ℤ p.stock → IsSold n p (lowered n p)
lowered-IsSold n p h = record { same = refl; taken = omega int_laws; enough = λ k. omega int_laws }

pub IsSold-none : (p : Product) → IsSold (pos 0) p p
IsSold-none p = record { same = refl; taken = omega int_laws; enough = λ k. k }

regroup : (c m n : ℤ) → c +ℤ n +ℤ m ≡ c +ℤ (m +ℤ n)
regroup c m n = omega int_laws

pub IsSold-trans : {m n : ℤ} {p q r : Product} → IsSold m p q → IsSold n q r → IsSold (m +ℤ n) p r
IsSold-trans {m} {n} {p} {q} {r} a b = record {
  same = b.same ∙ ap (λ (x : Product). record x { stock = r.stock }) a.same;
  taken = a.taken ∙ ap (λ z. z +ℤ m) b.taken ∙ regroup r.stock m n;
  enough = λ k. b.enough (a.enough k);
}

module _ (orm : Orm) where
  -- What one successful round did: the product was there, with enough of it, and is left with less.
  pub record IsReserved (order_id : String) (item : CreateOrderItemDto) (product : Product)
      (saved : OrderItem) (t t' : Tables) : Type 0 where
    pub positive : pos 0 <ℤ item.quantity
    pub enough : item.quantity ≤ℤ product.stock
    pub left :
        t'.products
        ≡ replace_by product_id
            (record product { stock = product.stock -ℤ item.quantity })
            t.products
    pub orders : t'.orders ≡ t.orders
    pub listed : t'.order_items ≡ saved ∷ t.order_items
    pub row : IsSavedItem (new_item order_id item) saved

  reserve_found-IsReserved :
      (order_id : String) (item : CreateOrderItemDto) (product : Product) (t : Tables)
      (saved : OrderItem) (t' : Tables)
      → reserve_found orm order_id item product t ≡ ok (saved, t')
      → IsReserved order_id item product saved t t'
  unfolding reserve_found
  reserve_found-IsReserved order_id item product t saved t' e =
      elim (Result-cases
        (orm.save_product (record product { stock = product.stock -ℤ item.quantity }) t)) [
          | inr (x, failed) ↦ absurd (ground arith)
          | inl (t₁, written) ↦
              let kept = orm.save_product_lem _ t t₁ written in
              let added : orm.insert_item (new_item order_id item) t₁ ≡ ok (saved, t') =
                ground arith in
              let (row, listed) = orm.insert_item_lem _ t₁ saved t' added in
              record {
                positive = ground arith;
                enough = ground arith;
                left = ground arith;
                orders = ground arith;
                listed = ground arith;
                row = row;
              }
        ]

  pub reserve-IsReserved :
      (order_id : String) (item : CreateOrderItemDto) (t : Tables) (saved : OrderItem) (t' : Tables)
      → reserve orm order_id item t ≡ ok (saved, t')
      → (product : Product) × (find_by product_id item.product_id t.products ≡ some product)
        × IsReserved order_id item product saved t t'
  unfolding reserve
  reserve-IsReserved order_id item t saved t' e =
      let (product, found, rest) =
        >>=-eq-ok (or_throw (orm.find_product item.product_id t) _) _ e in
      (
        product,
        sym (orm.find_product_lem item.product_id t) ∙ or_throw-eq-ok _ _ found,
        reserve_found-IsReserved order_id item product t saved t' rest,
      )

  -- One round, seen from one product.
  reserve-IsSold :
      (order_id : String) (item : CreateOrderItemDto) (t : Tables) (saved : OrderItem) (t' : Tables)
      (id : String) (p : Product)
      → reserve orm order_id item t ≡ ok (saved, t')
      → find_by product_id id t.products ≡ some p
      → (q : Product) × (find_by product_id id t'.products ≡ some q)
        × IsSold (if str_eq item.product_id id then item.quantity else pos 0) p q
  reserve-IsSold order_id item t saved t' id p e found =
      let (product, sold, r) = reserve-IsReserved order_id item t saved t' e in
      let own = find_by-key product_id item.product_id t.products product sold in
      let after =
        find_by-replace_by product_id (record product { stock = product.stock -ℤ item.quantity })
          t.products product id
          (subst (λ i. find_by product_id i t.products ≡ some product) (sym own) sold) in
      elim (Bool-cases (str_eq item.product_id id)) [
        | inl hit ↦
            let here : item.product_id ≡ id = (eq_iff item.product_id id).0 hit in
            let same : product ≡ p = ground (arith, here, sold) in
            (
              lowered item.quantity product,
              ground (arith, r.left, after, own, eq_iff product.id id),
              rw hit (
                  subst (λ x. IsSold item.quantity x (lowered item.quantity product)) same
                    (lowered-IsSold item.quantity product r.enough)),
            )
        | inr miss ↦ (
          p,
          ground (arith, r.left, after, own, eq_iff product.id id, eq_iff item.product_id id),
          rw miss (IsSold-none p),
        )
      ]

  -- The whole loop, seen from one product.
  pub reserve_all-IsSold :
      (order_id : String) (items : List CreateOrderItemDto) (t : Tables) (saved : List OrderItem)
      (t' : Tables) (id : String) (p : Product)
      → reserve_all orm order_id items t ≡ ok (saved, t')
      → find_by product_id id t.products ≡ some p
      → (q : Product) × (find_by product_id id t'.products ≡ some q) × IsSold (ordered id items) p q
  unfolding reserve_all
  reserve_all-IsSold order_id [] t saved t' id p e found = (p, ground arith, IsSold-none p)
  reserve_all-IsSold order_id (item ∷ items) t saved t' id p e found =
      let ((one, t₁), first, e₁) = >>=-eq-ok (reserve orm order_id item t) _ e in
      let ((rest, t₂), others, e₂) = >>=-eq-ok (reserve_all orm order_id items t₁) _ e₁ in
      let (q, found', sold) = reserve-IsSold order_id item t one t₁ id p first found in
      let (r, found'', sold') = reserve_all-IsSold order_id items t₁ rest t₂ id q others found' in
      let same : t₂ ≡ t' = ground arith in
      (
        r,
        subst (λ u. find_by product_id id u.products ≡ some r) same found'',
        subst (λ n. IsSold n p r) (ordered-cons id item items) (IsSold-trans sold sold'),
      )
