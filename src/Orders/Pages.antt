-- ===== src/Orders/Pages.antt =====
-- The pages of `getAllConnection`, put together.
use nest_js_ecomm_rd.Base.{
  ℕ, zero, suc, ◌+◌, ◌≤◌, ◌<◌, ◌≡◌, ◌≢◌, ◌↔◌, inl, inr, refl, sym, ap, subst, ◌∙◌, true, false,
  Option, none, some, List, [], ◌++◌, length, take, drop, slices, take-append-drop, drop-nil_iff,
  drop-drop, arith, if◌then◌else◌, Bool-cases, String, str_eq, eq_iff, ltb, leb, ◌∷◌, All,
}
use nest_js_ecomm_rd.Base.Int.{ltb_ℤ, ℤ, pos, negsuc, ◌+ℤ◌}
use nest_js_ecomm_rd.Errors.{internal, Result, ok, err, ◌>>=◌, >>=-eq-ok, >>-eq-ok}
use nest_js_ecomm_rd.Entities.{Order}
use nest_js_ecomm_rd.Database.{Tables}
use nest_js_ecomm_rd.Orders.Listing.{
  undefined, null, given, Nullable, OrdersFilterInput, OrdersPaginationInput, OrdersConnection,
  QueryBuilder, conditions, matching, taken, skipped, limit_of, offset_of, IsNewestFirst,
  validate_filters, validate_pagination, not_positive, is_negative, fetch, get_all_connection,
  or_fail, page_info, value_or,
}
use nest_js_ecomm_rd.Orders.Rows.{
  newest_first, newest_first-perm, newest_first-IsNewestFirst, length-perm,
}
use mathlib.Core.List.{Perm as IsPerm, append-nil, Mem, Memᴰ, mem-cons_self, mem-cons_of_mem}
use mathlib.Core.List.Perm
use mathlib.Core.Logic.{∥∥₁_elim}
use mathlib.Core.Bool.{Bool-set}
use mathlib.Core.HLevel.{hedberg}

-- A page within the list of all matching orders.
pub record IsPage (c : OrdersConnection) (filter : OrdersFilterInput) (t : Tables) : Type 0 where
  pub before : List Order
  pub after : List Order
  pub listed : IsPerm (before ++ (c.nodes ++ after)) (matching filter t)
  pub newest_first : IsNewestFirst (before ++ (c.nodes ++ after))
  pub counted : c.total_count ≡ length (before ++ (c.nodes ++ after))
  pub next : (c.page_info.has_next_page ≡ true) ↔ (after ≢ [])
  pub previous : before ≢ [] → c.page_info.has_previous_page ≡ true

validated :
    (pagination : Option OrdersPaginationInput)
    → validate_pagination pagination ≡ ok tt
    → (not_positive (limit_of pagination) ≡ false) × (is_negative (offset_of pagination) ≡ false)
unfolding validate_pagination
validated none h = (refl, refl)
validated (some pagination) h = (ground arith, ground arith)

or_fail-eq-ok :
    {Value : Type 0} (r : Result Value) {value : Value} → or_fail r ≡ ok value → r ≡ ok value
or_fail-eq-ok (ok v) h = h
or_fail-eq-ok (err error) h = cc

shown_before :
    (offset : ℕ) (rows : List Order) → take offset rows ≢ [] → ltb_ℤ (pos 0) (pos offset) ≡ true
shown_before zero rows some_before = absurd (some_before refl)
shown_before (suc n) rows some_before = ground arith

-- Of the orders, no two have the same time.
abbrev pub TimesDiffer : List Order → Type 0
TimesDiffer os = (a b : Order) → Mem a os → Mem b os → a.created_at ≡ b.created_at → a ≡ b

String_discrete : Discrete String
String_discrete a b = elim (Bool-cases (str_eq a b)) [
  | inl same ↦ yes ((eq_iff a b).0 same)
  | inr apart ↦ no (λ e. let hit = (eq_iff a b).1 e in ground (arith, apart, hit))
]

pub String-set : IsSet String
String-set = hedberg String_discrete

older :
    (x y : Order) (os : List Order)
    → All (λ p. p.created_at ≤ x.created_at) os
    → Memᴰ y os
    → leb y.created_at x.created_at ≡ true
older x y [] all m = elim m [ ]
older x y (o ∷ os) (first, all) (Memᴰ.head e) =
    let same : y.created_at ≡ o.created_at = ap (λ p. p.created_at) e in ground arith
older x y (o ∷ os) (first, all) (Memᴰ.tail m) = older x y os all m

-- The first of the newest first is the newest.
head-newest :
    (x y : Order) (xs ys : List Order)
    → IsNewestFirst (x ∷ xs)
    → IsPerm (y ∷ ys) (x ∷ xs)
    → leb y.created_at x.created_at ≡ true
head-newest x y xs ys (all, sorted) p =
    ∥∥₁_elim ((Perm.mem_iff p).0 mem-cons_self) (Bool-set _ _)
      (λ m. older x y (x ∷ xs) (omega arith, all) m)

-- Where the times differ, there is one way to stand newest first.
IsNewestFirst-unique :
    (xs ys : List Order)
    → TimesDiffer xs
    → IsNewestFirst xs
    → IsNewestFirst ys
    → IsPerm xs ys
    → xs ≡ ys
IsNewestFirst-unique [] ys differ sorted sorted' p = Perm.nil-eq p
IsNewestFirst-unique (x ∷ xs) [] differ sorted sorted' p = Perm.eq-nil p
IsNewestFirst-unique (x ∷ xs) (y ∷ ys) differ (all, sorted) (all', sorted') p =
    let back = Perm.symm p in
    let le = head-newest x y xs ys (all, sorted) back in
    let ge = head-newest y x ys xs (all', sorted') p in
    let same : x ≡ y =
      differ x y mem-cons_self ((Perm.mem_iff back).0 mem-cons_self) (ground arith) in
    let rest = Perm.cons_inv (Perm.trans p (Perm.symm (Perm.cons' same Perm.rfl))) in
    ap (λ z. z ∷ xs) same
    ∙ ap (y ∷◌) (
        IsNewestFirst-unique xs ys
          (λ a b m m'. differ a b (mem-cons_of_mem x m) (mem-cons_of_mem x m')) sorted sorted' rest)

-- The matching orders, newest first.
abbrev sorted : OrdersFilterInput → Tables → List Order
sorted filter t = newest_first (matching filter t)

module _ (qb : QueryBuilder) where
  -- A client that asks for page after page. Where the fuel runs out, it fails.
  abbrev pub all_pages : ℕ → Option OrdersFilterInput → ℕ → ℕ → Tables → Result (List Order)
  all_pages zero filter limit offset t = err (internal "more pages")
  all_pages (suc fuel) filter limit offset t =
      let rest = all_pages fuel filter limit (offset + limit) t in
      get_all_connection qb filter
        (some (record { limit = given (pos limit); offset = given (pos offset) })) t
      >>= λ c. if c.page_info.has_next_page then (rest >>= λ os. ok (c.nodes ++ os)) else ok c.nodes

  -- Both queries are answered, for each page.
  pub record IsAnswered (filter : OrdersFilterInput) (t : Tables) : Type 0 where
    pub count : (n : ℕ) × (qb.get_count filter t ≡ ok n)
    pub many :
        (limit offset : Nullable ℤ)
        → (nodes : List Order) × (qb.get_many filter limit offset t ≡ ok nodes)

  -- What one request answers.
  get_all_connection_lem :
      (filter : Option OrdersFilterInput) (limit offset : ℕ) (t : Tables)
      → 0 < limit
      → validate_filters filter ≡ ok tt
      → IsAnswered (conditions filter) t
      → TimesDiffer (matching (conditions filter) t)
      → let rows = sorted (conditions filter) t in
        get_all_connection qb filter
          (some (record { limit = given (pos limit); offset = given (pos offset) }))
          t
        ≡ ok (record {
          nodes = take limit (drop offset rows);
          total_count = length rows;
          page_info = page_info (pos limit) (pos offset) (length rows);
        })
  unfolding get_all_connection fetch validate_pagination
  get_all_connection_lem filter limit offset t positive valid answered differ =
      let counted = answered.count.1 in
      let read = (answered.many (given (pos limit)) (given (pos offset))).1 in
      let total =
        qb.get_count_lem (conditions filter) t answered.count.0 counted
        ∙ sym (length-perm (newest_first-perm (matching (conditions filter) t))) in
      let (rows, listed, newest, nodes) =
        qb.get_many_lem (conditions filter) (given (pos limit)) (given (pos offset)) t
          (answered.many (given (pos limit)) (given (pos offset))).0 read in
      let same =
        IsNewestFirst-unique rows (sorted (conditions filter) t)
          (λ a b m m'. differ a b ((Perm.mem_iff listed).0 m) ((Perm.mem_iff listed).0 m')) newest
          (newest_first-IsNewestFirst (matching (conditions filter) t))
          (Perm.trans listed (Perm.symm (newest_first-perm (matching (conditions filter) t)))) in
      let shown = nodes ∙ ap (λ rs. take limit (drop offset rs)) same in
      ground (arith, valid, counted, read, total, shown)

  all_pages-drop :
      (fuel : ℕ) (filter : Option OrdersFilterInput) (limit offset : ℕ) (t : Tables)
      → 0 < limit
      → validate_filters filter ≡ ok tt
      → IsAnswered (conditions filter) t
      → TimesDiffer (matching (conditions filter) t)
      → offset ≤ length (sorted (conditions filter) t)
      → length (sorted (conditions filter) t) < offset + fuel
      → all_pages fuel filter limit offset t ≡ ok (drop offset (sorted (conditions filter) t))
  unfolding ◌+ℤ◌
  all_pages-drop zero filter limit offset t positive valid answered differ inside fuelled =
      let absurd : ⊥ = omega arith in elim absurd [ ]
  all_pages-drop (suc fuel) filter limit offset t positive valid answered differ inside fuelled =
      let page = get_all_connection_lem filter limit offset t positive valid answered differ in
      let rows = sorted (conditions filter) t in
      let joined =
        ap (λ rest. take limit (drop offset rows) ++ rest) (sym (drop-drop offset limit rows))
        ∙ take-append-drop limit (drop offset rows) in
      elim (Bool-cases (ltb (offset + limit) (length rows))) [
        | inl more ↦
            let rest =
              all_pages-drop fuel filter limit (offset + limit) t positive valid answered differ
                (ground arith) (ground arith) in
            ground (arith, page, rest, joined)
        | inr last ↦
            let none_after = (drop-nil_iff (offset + limit) rows).1 (ground arith) in
            let page_alone =
              sym (append-nil (take limit (drop offset rows)))
              ∙ ap (take limit (drop offset rows) ++◌) (sym none_after)
              ∙ joined in
            ground (arith, page, page_alone)
      ]

  -- Walking the pages with any positive limit, while the tables stay the same, the database answers, and no two
  -- of the matching orders have the same time of creation, gives every order that matches the filter exactly
  -- once, newest first, in at most as many requests as there are such orders, and one more.
  pub all_pages_complete :
      (filter : Option OrdersFilterInput) (limit : ℕ) (t : Tables)
      → 0 < limit
      → validate_filters filter ≡ ok tt
      → IsAnswered (conditions filter) t
      → TimesDiffer (matching (conditions filter) t)
      → (os : List Order) × (all_pages
            (suc (length (matching (conditions filter) t)))
            filter
            limit
            0
            t
          ≡ ok os)
        × IsPerm os (matching (conditions filter) t)
        × IsNewestFirst os
  all_pages_complete filter limit t positive valid answered differ =
      let f = conditions filter in
      let count = length-perm (newest_first-perm (matching f t)) in
      (
        sorted f t,
        all_pages-drop (suc (length (matching f t))) filter limit 0 t positive valid answered differ
            (omega arith) (omega (arith, count)),
        newest_first-perm (matching f t),
        newest_first-IsNewestFirst (matching f t),
      )

  -- The rows of a query.
  record AreRows (filter : OrdersFilterInput) (t : Tables) (rows : List Order) : Type 0 where
    listed : IsPerm rows (matching filter t)
    newest_first : IsNewestFirst rows

  -- The rows are the part before the page, the page, and the part after it.
  parts-IsPage :
      (c : OrdersConnection) (filter : OrdersFilterInput) (t : Tables)
      (rows before after : List Order)
      → AreRows filter t rows
      → before ++ (c.nodes ++ after) ≡ rows
      → c.total_count ≡ length rows
      → ((c.page_info.has_next_page ≡ true) ↔ (after ≢ []))
      → (before ≢ [] → c.page_info.has_previous_page ≡ true)
      → IsPage c filter t
  parts-IsPage c filter t rows before after are joined total next previous = record {
    before = before;
    after = after;
    listed = subst (λ os. IsPerm os (matching filter t)) (sym joined) are.listed;
    newest_first = subst IsNewestFirst (sym joined) are.newest_first;
    counted = total ∙ ap length (sym joined);
    next = next;
    previous = previous;
  }

  -- What `fetch` makes of the rows.
  abbrev page_of : List Order → Nullable ℤ → Nullable ℤ → OrdersConnection
  page_of rows limit offset = record {
    nodes = taken limit (skipped offset rows);
    total_count = length rows;
    page_info =
        page_info (value_or limit (pos (length rows))) (value_or offset (pos 0)) (length rows);
  }

  fetch-page_of :
      (filter : OrdersFilterInput) (limit offset : Nullable ℤ) (t : Tables) (c : OrdersConnection)
      → fetch qb filter limit offset t ≡ ok c
      → (rows : List Order) × AreRows filter t rows × (c ≡ page_of rows limit offset)
  unfolding fetch
  fetch-page_of filter limit offset t c h =
      let (n, counted, h') = >>=-eq-ok (qb.get_count filter t) _ h in
      let (nodes, read, h'') = >>=-eq-ok (qb.get_many filter limit offset t) _ h' in
      let total = qb.get_count_lem filter t n counted in
      let (rows, listed, newest, shown) = qb.get_many_lem filter limit offset t nodes read in
      let count = total ∙ sym (length-perm listed) in
      (rows, record { listed = listed; newest_first = newest }, ground (arith, h'', count, shown))

  limited-IsPage :
      (filter : OrdersFilterInput) (limit offset : ℕ) (t : Tables) (rows : List Order)
      → AreRows filter t rows
      → IsPage (page_of rows (given (pos limit)) (given (pos offset))) filter t
  unfolding ◌+ℤ◌
  limited-IsPage filter limit offset t rows are =
      let after = drop-nil_iff (offset + limit) rows in
      parts-IsPage _ filter t rows (take offset rows) (drop (offset + limit) rows) are
        (slices offset limit rows) refl
        (
          λ e. λ gone. let covered = after.0 gone in ground arith,
          λ more.
              let uncovered : ¬ (length rows ≤ offset + limit) = λ h. more (after.1 h) in
              ground arith,
        )
        (shown_before offset rows)

  rest-IsPage :
      (filter : OrdersFilterInput) (offset : ℕ) (t : Tables) (rows : List Order)
      → AreRows filter t rows
      → IsPage (page_of rows undefined (given (pos offset))) filter t
  unfolding ◌+ℤ◌
  rest-IsPage filter offset t rows are =
      parts-IsPage _ filter t rows (take offset rows) [] are
        (ap (take offset rows ++◌) (append-nil (drop offset rows)) ∙ take-append-drop offset rows)
        refl (λ e. ground arith, λ more. absurd (more refl)) (shown_before offset rows)

  page_of-IsPage :
      (filter : OrdersFilterInput) (limit offset : Nullable ℤ) (t : Tables) (rows : List Order)
      → AreRows filter t rows
      → not_positive limit ≡ false
      → is_negative offset ≡ false
      → IsPage (page_of rows limit offset) filter t
  page_of-IsPage filter undefined undefined t rows are l o = rest-IsPage filter 0 t rows are
  page_of-IsPage filter undefined null t rows are l o = rest-IsPage filter 0 t rows are
  page_of-IsPage filter undefined (given (pos n)) t rows are l o = rest-IsPage filter n t rows are
  page_of-IsPage filter undefined (given (negsuc n)) t rows are l o = absurd (ground arith)
  page_of-IsPage filter null offset t rows are l o = absurd (cc)
  page_of-IsPage filter (given (pos m)) undefined t rows are l o =
      limited-IsPage filter m 0 t rows are
  page_of-IsPage filter (given (pos m)) null t rows are l o = limited-IsPage filter m 0 t rows are
  page_of-IsPage filter (given (pos m)) (given (pos n)) t rows are l o =
      limited-IsPage filter m n t rows are
  page_of-IsPage filter (given (pos m)) (given (negsuc n)) t rows are l o = absurd (ground arith)
  page_of-IsPage filter (given (negsuc m)) offset t rows are l o = absurd (ground arith)

  -- An answer of `getAllConnection` is a page of all the orders that match the filter, newest first: it has
  -- their number, and tells whether orders come after the page; where some come before it, it tells that too.
  pub get_all_connection-IsPage :
      (filter : Option OrdersFilterInput) (pagination : Option OrdersPaginationInput) (t : Tables)
      (c : OrdersConnection)
      → get_all_connection qb filter pagination t ≡ ok c
      → IsPage c (conditions filter) t
  unfolding get_all_connection
  get_all_connection-IsPage filter pagination t c h =
      let h' = (>>-eq-ok (validate_filters filter) _ h).1 in
      let bounds = validated pagination (>>-eq-ok (validate_pagination pagination) _ h').0 in
      let fetched = or_fail-eq-ok _ (>>-eq-ok (validate_pagination pagination) _ h').1 in
      let (rows, are, same) =
        fetch-page_of (conditions filter) (limit_of pagination) (offset_of pagination) t c
          fetched in
      subst (λ d. IsPage d (conditions filter) t) (sym same)
        (page_of-IsPage (conditions filter) (limit_of pagination) (offset_of pagination) t rows are
          bounds.0 bounds.1)
