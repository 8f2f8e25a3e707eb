-- ===== src/Database/Table.antt =====
-- TypeORM's repository of one table, with what its documentation says as laws: `create` and `save` of a new
-- row, `preload`, which merges a patch into the stored row, `save` of a stored row, and `delete`.
-- No row is kept from deletion by others: no migration creates the RESTRICT key of orders/order-item.entity.ts.
use nest_js_ecomm_rd.Base.{
  ℕ, String, ◌≡◌, ◌≢◌, ◌↔◌, sym, ap, ◌∙◌, Option, none, some, List, ◌∷◌, arith, eq_iff, eq_refl,
}
use nest_js_ecomm_rd.Errors.{Result, ok}
use nest_js_ecomm_rd.Database.Schema.{find_by, find_by-replace_by, replace_by}

-- `S` is the database, `HasColumns n row` says that the row has the columns given by `n` and the defaults
-- of the others, `merge patch row` is the row with the columns of the patch.
pub record Repository (Row New Patch S : Type 0) (key : Row → String)
    (HasColumns : New → Row → Type 0) (merge : Patch → Row → Row) : Type 0 where
  pub rows : S → List Row
  pub find : S → List Row
  pub find_one : String → S → Option Row
  pub insert : New → S → Result (Row × S)
  pub preload : String → Patch → S → Option Row
  pub save : Row → S → Result (Row × S)
  pub delete : String → S → ℕ × S
  pub find_lem : (s : S) → find s ≡ rows s
  pub find_one_lem : (id : String) (s : S) → find_one id s ≡ find_by key id (rows s)
  pub insert_lem :
      (n : New) (s : S) (row : Row) (s' : S)
      → insert n s ≡ ok (row, s')
      → HasColumns n row × (find_by key (key row) (rows s) ≡ none) × (rows s' ≡ row ∷ rows s)
  pub preload-none :
      (id : String) (patch : Patch) (s : S)
      → find_by key id (rows s) ≡ none
      → preload id patch s ≡ none
  pub preload-some :
      (id : String) (patch : Patch) (s : S) (row : Row)
      → find_by key id (rows s) ≡ some row
      → preload id patch s ≡ some (merge patch row)
  pub save_lem :
      (row : Row) (s : S) (saved : Row) (s' : S)
      → save row s ≡ ok (saved, s')
      → (saved ≡ row) × (rows s' ≡ replace_by key row (rows s))
  pub delete_lem :
      (id : String) (s : S)
      → (((delete id s).0 ≡ 0) ↔ (find_by key id (rows s) ≡ none))
        × (find_by key id (rows (delete id s).1) ≡ none)
        × ((other : String)
            → other ≢ id
            → find_by key other (rows (delete id s).1) ≡ find_by key other (rows s))

module _ {Row New Patch S : Type 0} {key : Row → String} {HasColumns : New → Row → Type 0}
    {merge : Patch → Row → Row} (repository : Repository Row New Patch S key HasColumns merge) where
  -- A saved row is the one that is read under its identifier, and no other row is touched.
  pub save-find_one :
      (id : String) (row before saved : Row) (s s' : S)
      → key row ≡ id
      → find_by key id (repository.rows s) ≡ some before
      → repository.save row s ≡ ok (saved, s')
      → (saved ≡ row)
        × (repository.find_one id s' ≡ some saved)
        × ((other : String)
            → other ≢ id
            → repository.find_one other s' ≡ repository.find_one other s)
  save-find_one id row before saved s s' named found h =
      let (same, table) = repository.save_lem row s saved s' h in
      let read = λ (j : String).
        repository.find_one_lem j s'
        ∙ ap (find_by key j) table
        ∙ find_by-replace_by key row (repository.rows s) before j
            (ap (λ i. find_by key i (repository.rows s)) named ∙ found) in
      (
        same,
        read id ∙ ground (arith, named, eq_refl id, same),
        λ other differs.
            read other
            ∙ ground (arith, named, eq_iff id other, sym (repository.find_one_lem other s)),
      )

  -- A new row is the one that is read under its identifier, and no other row is touched.
  pub insert-find_one :
      (n : New) (s : S) (row : Row) (s' : S)
      → repository.insert n s ≡ ok (row, s')
      → HasColumns n row
        × (repository.find_one (key row) s ≡ none)
        × (repository.find_one (key row) s' ≡ some row)
        × ((other : String)
            → other ≢ key row
            → repository.find_one other s' ≡ repository.find_one other s)
  insert-find_one n s row s' h =
      let (columns, fresh, table) = repository.insert_lem n s row s' h in
      let read = λ (j : String). repository.find_one_lem j s' ∙ ap (find_by key j) table in
      (
        columns,
        repository.find_one_lem (key row) s ∙ fresh,
        read (key row) ∙ ground (arith, eq_refl (key row)),
        λ other differs.
            read other
            ∙ ground (arith, eq_iff (key row) other, sym (repository.find_one_lem other s)),
      )

  -- A deletion finds a row exactly if one was read under the identifier; afterwards none is.
  pub delete-find_one :
      (id : String) (s : S)
      → (((repository.delete id s).0 ≡ 0) ↔ (repository.find_one id s ≡ none))
        × (repository.find_one id (repository.delete id s).1 ≡ none)
        × ((other : String)
            → other ≢ id
            → repository.find_one other (repository.delete id s).1 ≡ repository.find_one other s)
  delete-find_one id s =
      let (counted, gone, others) = repository.delete_lem id s in
      (
        (
          λ e. repository.find_one_lem id s ∙ counted.0 e,
          λ e. counted.1 (sym (repository.find_one_lem id s) ∙ e),
        ),
        repository.find_one_lem id (repository.delete id s).1 ∙ gone,
        λ other differs.
            repository.find_one_lem other (repository.delete id s).1
            ∙ others other differs
            ∙ sym (repository.find_one_lem other s),
      )
