-- ===== src/Base/Lists.antt =====
-- Lists measured by native numbers, and predicates over them.
use Prim.Native.Nat.{ℕ, zero, suc, ◌+◌, ◌-◌, ◌≤◌}
use mathlib.Core.Path.{◌≡◌, refl, sym, ap, ◌∙◌}
use mathlib.Core.Logic.{◌↔◌, inl, inr}
use mathlib.Core.Bool.{Bool, true, false}
use mathlib.Core.List.{List, [], ◌∷◌, ◌++◌}
use native.Mathlib.Omega.{arith}
use nest_js_ecomm_rd.Base.Tests.{if◌then◌else◌, Bool-cases}

module _ {ℓ} {A : Type ℓ} where
  abbrev pub length : List A → ℕ
  length [] = 0
  length (x ∷ xs) = suc (length xs)

  pub length-append : (xs ys : List A) → length (xs ++ ys) ≡ length xs + length ys
  length-append [] ys = omega arith
  length-append (x ∷ xs) ys = omega (arith, length-append xs ys)

  -- `xs.filter(p)`
  abbrev pub filterb : (A → Bool) → List A → List A
  filterb p [] = []
  filterb p (x ∷ xs) = let rest = filterb p xs in if p x then x ∷ rest else rest

  pub length-filterb-le : (p : A → Bool) (xs : List A) → length (filterb p xs) ≤ length xs
  length-filterb-le p [] = omega arith
  length-filterb-le p (x ∷ xs) = ground (arith, length-filterb-le p xs)

  abbrev pub All {κ} : (A → Type κ) → List A → Type κ
  All P [] = Unit
  All P (x ∷ xs) = P x × All P xs

  pub filterb-append :
      (p : A → Bool) (xs ys : List A) → filterb p (xs ++ ys) ≡ filterb p xs ++ filterb p ys
  filterb-append p [] ys = refl
  filterb-append p (x ∷ xs) ys = ground (arith, filterb-append p xs ys)

  pub filterb-keeps : (p : A → Bool) (xs : List A) → All (λ x. p x ≡ true) xs → filterb p xs ≡ xs
  filterb-keeps p [] all = refl
  filterb-keeps p (x ∷ xs) (holds, all) = ground (arith, filterb-keeps p xs all)

  pub filterb-drops : (p : A → Bool) (xs : List A) → All (λ x. p x ≡ false) xs → filterb p xs ≡ []
  filterb-drops p [] all = refl
  filterb-drops p (x ∷ xs) (fails, all) = ground (arith, filterb-drops p xs all)

  pub filterb-All : (p : A → Bool) (xs : List A) → All (λ x. p x ≡ true) (filterb p xs)
  filterb-All p [] = tt
  filterb-All p (x ∷ xs) = elim (Bool-cases (p x)) [
    | inl holds ↦ rw holds (holds, filterb-All p xs)
    | inr fails ↦ rw fails (filterb-All p xs)
  ]

  abbrev pub take : ℕ → List A → List A
  take zero xs = []
  take (suc n) [] = []
  take (suc n) (x ∷ xs) = x ∷ take n xs

  pub length-take-le : (n : ℕ) (xs : List A) → length (take n xs) ≤ n
  length-take-le zero xs = omega arith
  length-take-le (suc n) [] = omega arith
  length-take-le (suc n) (x ∷ xs) = omega (arith, length-take-le n xs)

  -- `xs.slice(n)`
  abbrev pub drop : ℕ → List A → List A
  drop zero xs = xs
  drop (suc n) [] = []
  drop (suc n) (x ∷ xs) = drop n xs

  pub take-append-drop : (n : ℕ) (xs : List A) → take n xs ++ drop n xs ≡ xs
  take-append-drop zero xs = refl
  take-append-drop (suc n) [] = refl
  take-append-drop (suc n) (x ∷ xs) = ap (◌∷◌ x) (take-append-drop n xs)

  pub drop-drop : (n m : ℕ) (xs : List A) → drop m (drop n xs) ≡ drop (n + m) xs
  drop-drop zero m xs = let same : m ≡ 0 + m = omega arith in ap (λ k. drop k xs) same
  drop-drop (suc n) zero [] = let same : suc n ≡ suc n + 0 = omega arith in ap (λ k. drop k []) same
  drop-drop (suc n) (suc m) [] =
      let same : suc n + suc m ≡ suc (n + suc m) = omega arith in sym (ap (λ k. drop k []) same)
  drop-drop (suc n) m (x ∷ xs) =
      let same : suc n + m ≡ suc (n + m) = omega arith in
      drop-drop n m xs ∙ sym (ap (λ k. drop k (x ∷ xs)) same)

  -- A list falls into the part before a slice, the slice, and the part after it.
  pub slices : (n m : ℕ) (xs : List A) → take n xs ++ (take m (drop n xs) ++ drop (n + m) xs) ≡ xs
  slices n m xs =
      ap (λ rest. take n xs ++ (take m (drop n xs) ++ rest)) (sym (drop-drop n m xs))
      ∙ ap (take n xs ++◌) (take-append-drop m (drop n xs))
      ∙ take-append-drop n xs

  pub drop-nil_iff : (n : ℕ) (xs : List A) → (drop n xs ≡ []) ↔ (length xs ≤ n)
  drop-nil_iff zero [] = (λ e. omega arith, λ h. refl)
  drop-nil_iff zero (x ∷ xs) = (λ e. cc, λ h. let absurd : ⊥ = omega arith in elim absurd [ ])
  drop-nil_iff (suc n) [] = (λ e. omega arith, λ h. refl)
  drop-nil_iff (suc n) (x ∷ xs) = (
    λ e. let shorter = (drop-nil_iff n xs).0 e in omega arith,
    λ h. (drop-nil_iff n xs).1 (omega arith),
  )

  pub length-drop : (n : ℕ) (xs : List A) → length (drop n xs) ≡ length xs - n
  length-drop zero xs = omega arith
  length-drop (suc n) [] = omega arith
  length-drop (suc n) (x ∷ xs) = omega (arith, length-drop n xs)
