-- ===== src/Database/Rows.antt =====
-- A repository whose database is the list of the rows. A new row that `make` does not give, or whose
-- identifier is in use, is refused.
use nest_js_ecomm_rd.Base.{
  ℕ, String, ◌≡◌, ◌≢◌, ◌↔◌, refl, sym, ap, ◌∙◌, inl, inr, not, Option, none, some, List, [], ◌∷◌,
  arith, eq_iff, str_eq, if◌then◌else◌, filterb, is_some, Option-cases,
}
use nest_js_ecomm_rd.Errors.{driver, Result, ok, err, ok-injective}
use nest_js_ecomm_rd.Database.Schema.{find_by, replace_by, unique_violation}
use nest_js_ecomm_rd.Database.Table.{Repository}

module _ {Row New Patch : Type 0} (key : Row → String) (HasColumns : New → Row → Type 0)
    (merge : Patch → Row → Row) (make : New → Option Row) where
  abbrev pub insert : New → List Row → Result (Row × List Row)
  insert n rows = elim (make n) [
    | none ↦ err (driver (some "23502"))
    | some row ↦
        if is_some (find_by key (key row) rows) then err unique_violation else ok (row, row ∷ rows)
  ]

  abbrev pub affected : String → List Row → ℕ
  affected id rows = if is_some (find_by key id rows) then 1 else 0

  abbrev pub load : String → Patch → List Row → Option Row
  load id patch rows = elim (find_by key id rows) [
    | none ↦ none
    | some row ↦ some (merge patch row)
  ]

  abbrev pub save : Row → List Row → Result (Row × List Row)
  save row rows = ok (row, replace_by key row rows)

  abbrev pub without : String → List Row → List Row
  without id rows = filterb (λ row. not (str_eq (key row) id)) rows

  find_by-without : (id : String) (rows : List Row) → find_by key id (without id rows) ≡ none
  find_by-without id [] = refl
  find_by-without id (row ∷ rows) = ground (arith, find_by-without id rows)

  find_by-without_other :
      (id other : String) (rows : List Row)
      → other ≢ id
      → find_by key other (without id rows) ≡ find_by key other rows
  find_by-without_other id other [] differs = refl
  find_by-without_other id other (row ∷ rows) differs = ground (
    arith,
    eq_iff (key row) id,
    eq_iff (key row) other,
    find_by-without_other id other rows differs,
  )

  module _ (makes : (n : New) (row : Row) → make n ≡ some row → HasColumns n row) where
    pub insert_lem :
        (n : New) (rows : List Row) (row : Row) (rows' : List Row)
        → insert n rows ≡ ok (row, rows')
        → HasColumns n row × (find_by key (key row) rows ≡ none) × (rows' ≡ row ∷ rows)
    insert_lem n rows row rows' h = elim (Option-cases (make n)) [
      | inl refused ↦ absurd (ground (arith, refused))
      | inr (made, given) ↦ elim (Option-cases (find_by key (key made) rows)) [
        | inr (old, taken) ↦ absurd (ground (arith, given, taken))
        | inl free ↦
            let same : made ≡ row = ground (arith, given, free) in
            let table : made ∷ rows ≡ rows' = ground (arith, given, free) in
            (
              makes n row (given ∙ ap some same),
              ap (λ r. find_by key (key r) rows) (sym same) ∙ free,
              sym table ∙ ap (λ r. r ∷ rows) same,
            )
      ]
    ]

    pub delete_lem :
        (id : String) (rows : List Row)
        → ((affected id rows ≡ 0) ↔ (find_by key id rows ≡ none))
          × (find_by key id (without id rows) ≡ none)
          × ((other : String)
              → other ≢ id
              → find_by key other (without id rows) ≡ find_by key other rows)
    delete_lem id rows = (
      elim (Option-cases (find_by key id rows)) [
        | inl missing ↦ (λ e. missing, λ e. ground (arith, missing))
        | inr (row, found) ↦ (λ e. absurd (ground (arith, found)), λ e. absurd (cc))
      ],
      find_by-without id rows,
      λ other differs. find_by-without_other id other rows differs,
    )

    pub load-none :
        (id : String) (patch : Patch) (rows : List Row)
        → find_by key id rows ≡ none
        → load id patch rows ≡ none
    load-none id patch rows missing = ground (arith, missing)

    pub load-some :
        (id : String) (patch : Patch) (rows : List Row) (row : Row)
        → find_by key id rows ≡ some row
        → load id patch rows ≡ some (merge patch row)
    load-some id patch rows row found = ground (arith, found)

    pub save-replaces :
        (row : Row) (rows : List Row) (saved : Row) (rows' : List Row)
        → save row rows ≡ ok (saved, rows')
        → (saved ≡ row) × (rows' ≡ replace_by key row rows)
    save-replaces row rows saved rows' h =
        let same = ok-injective h in (sym (ap (λ x. x.0) same), sym (ap (λ x. x.1) same))

    abbrev pub listed : Repository Row New Patch (List Row) key HasColumns merge
    listed = record {
      rows = λ rows. rows;
      find = λ rows. rows;
      find_one = λ id rows. find_by key id rows;
      insert = insert;
      preload = load;
      save = save;
      delete = λ id rows. (affected id rows, without id rows);
      find_lem = λ rows. refl;
      find_one_lem = λ id rows. refl;
      insert_lem = insert_lem;
      preload-none = load-none;
      preload-some = load-some;
      save_lem = save-replaces;
      delete_lem = delete_lem;
    }
