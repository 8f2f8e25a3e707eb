-- ===== src/Orders/Rows.antt =====
-- A query builder over tables in memory: the matching orders, sorted by an insertion sort.
use nest_js_ecomm_rd.Base.{
  suc, ◌≡◌, refl, ap, ◌∙◌, ◌≤◌, sym, List, [], ◌∷◌, if◌then◌else◌, leb, inl, inr, Bool-cases,
  length, All, arith,
}
use nest_js_ecomm_rd.Errors.{ok, ok-injective}
use nest_js_ecomm_rd.Entities.{Order}
use nest_js_ecomm_rd.Orders.Listing.{QueryBuilder, IsNewestFirst, matching, taken, skipped}
use mathlib.Core.List.{Perm as IsPerm}
use mathlib.Core.List.Perm
use mathlib.Core.List.{Permᴰ}
use mathlib.Core.Logic.{∥∥₁_elim}

abbrev pub insert : Order → List Order → List Order
insert o [] = o ∷ []
insert o (p ∷ ps) =
    let rest = insert o ps in if leb p.created_at o.created_at then o ∷ (p ∷ ps) else p ∷ rest

abbrev pub newest_first : List Order → List Order
newest_first [] = []
newest_first (o ∷ os) = insert o (newest_first os)

insert-perm : (o : Order) (os : List Order) → IsPerm (insert o os) (o ∷ os)
insert-perm o [] = Perm.refl _
insert-perm o (p ∷ ps) = elim (Bool-cases (leb p.created_at o.created_at)) [
  | inl newer ↦ rw newer (Perm.refl _)
  | inr older ↦ rw older (Perm.trans (Perm.cons p (insert-perm o ps)) (Perm.swap o p ps))
]

pub newest_first-perm : (os : List Order) → IsPerm (newest_first os) os
newest_first-perm [] = Perm.nil
newest_first-perm (o ∷ os) =
    Perm.trans (insert-perm o (newest_first os)) (Perm.cons o (newest_first-perm os))

abbrev Older : Order → Order → Type 0
Older o p = p.created_at ≤ o.created_at

All-weaken : (o p : Order) (os : List Order) → Older o p → All (Older p) os → All (Older o) os
All-weaken o p [] h all = tt
All-weaken o p (q ∷ qs) h (first, rest) = (omega arith, All-weaken o p qs h rest)

insert-All :
    (q o : Order) (os : List Order) → Older q o → All (Older q) os → All (Older q) (insert o os)
insert-All q o [] h all = (h, tt)
insert-All q o (p ∷ ps) h (first, rest) = elim (Bool-cases (leb p.created_at o.created_at)) [
  | inl newer ↦ rw newer (h, (first, rest))
  | inr older ↦ rw older (first, insert-All q o ps h rest)
]

insert-IsNewestFirst :
    (o : Order) (os : List Order) → IsNewestFirst os → IsNewestFirst (insert o os)
insert-IsNewestFirst o [] h = (tt, tt)
insert-IsNewestFirst o (p ∷ ps) (all, rest) = elim (Bool-cases (leb p.created_at o.created_at)) [
  | inl newer ↦ rw newer ((ground arith, All-weaken o p ps (ground arith) all), (all, rest))
  | inr older ↦ rw older (insert-All p o ps (ground arith) all, insert-IsNewestFirst o ps rest)
]

pub newest_first-IsNewestFirst : (os : List Order) → IsNewestFirst (newest_first os)
newest_first-IsNewestFirst [] = tt
newest_first-IsNewestFirst (o ∷ os) =
    insert-IsNewestFirst o (newest_first os) (newest_first-IsNewestFirst os)

perm-length : {os ps : List Order} → Permᴰ os ps → length os ≡ length ps
perm-length Permᴰ.nil = refl
perm-length (Permᴰ.cons e d) = ap suc (perm-length d)
perm-length (Permᴰ.swap e e') = refl
perm-length (Permᴰ.trans d d') = perm-length d ∙ perm-length d'

pub length-perm : {os ps : List Order} → IsPerm os ps → length os ≡ length ps
length-perm p = ∥∥₁_elim p (hlevel) (λ d. perm-length d)

abbrev pub sorted_rows : QueryBuilder
sorted_rows = record {
  get_count = λ filter t. ok (length (matching filter t));
  get_many =
      λ filter limit offset t. ok (taken limit (skipped offset (newest_first (matching filter t))));
  get_count_lem = λ filter t n h. sym (ok-injective h);
  get_many_lem = λ filter limit offset t nodes h. (
    newest_first (matching filter t),
    newest_first-perm (matching filter t),
    newest_first-IsNewestFirst (matching filter t),
    sym (ok-injective h),
  );
}
