-- ===== src/Auth/Laws.antt =====
-- Whom the guards let pass.
use nest_js_ecomm_rd.Base.{
  String, ◌≡◌, ◌⊎◌, ◌↔◌, inl, inr, refl, true, Option, none, some, List, [], ◌∷◌, includes, arith,
  eq_iff, eq_refl, Bool-cases,
}
use nest_js_ecomm_rd.Errors.{ok}
use nest_js_ecomm_rd.Auth.{
  AuthUser, holds_some, holds_every, roles_of, scopes_of, roles_guard, scopes_guard,
}

-- What a handler asks for; nothing where it has no decorator.
abbrev pub asked : Option (List String) → List String
asked none = []
asked (some xs) = xs

holds_some-found :
    (xs held : List String)
    → holds_some xs held ≡ true
    → (x : String) × (includes xs x ≡ true) × (includes held x ≡ true)
holds_some-found [] held h = absurd (cc)
holds_some-found (y ∷ ys) held h = elim (Bool-cases (includes held y)) [
  | inl here ↦ (y, ground (arith, eq_refl y), here)
  | inr not_here ↦
      let (x, asked_for, has) = holds_some-found ys held (ground arith) in
      (x, ground (arith, asked_for), has)
]

holds_some-of_found :
    (xs held : List String) (x : String)
    → includes xs x ≡ true
    → includes held x ≡ true
    → holds_some xs held ≡ true
holds_some-of_found [] held x a h = cc
holds_some-of_found (y ∷ ys) held x a h = ground (arith, eq_iff y x, holds_some-of_found ys held x)

roles_guard_iff :
    (required : Option (List String)) (user : Option AuthUser)
    → (roles_guard required user ≡ ok true) ↔ (
        (asked required ≡ [])
        ⊎ ((role : String) × (includes (asked required) role ≡ true)
            × (includes (roles_of user) role ≡ true)))
unfolding roles_guard
roles_guard_iff none user = (λ h. inl refl, λ h. refl)
roles_guard_iff (some []) user = (λ h. inl refl, λ h. refl)
roles_guard_iff (some (r ∷ rs)) user = (
  λ h. inr (holds_some-found (r ∷ rs) (roles_of user) (ground arith)),
  λ h. elim h [
    | inl e ↦ absurd (cc)
    | inr (x, a, b) ↦ let found = holds_some-of_found (r ∷ rs) (roles_of user) x a b in ground arith
  ],
)

holds_every-each :
    (xs held : List String) (x : String)
    → holds_every xs held ≡ true
    → includes xs x ≡ true
    → includes held x ≡ true
holds_every-each [] held x h a = cc
holds_every-each (y ∷ ys) held x h a = ground (arith, eq_iff y x, holds_every-each ys held x)

holds_every-of_each :
    (xs held : List String)
    → ((x : String) → includes xs x ≡ true → includes held x ≡ true)
    → holds_every xs held ≡ true
holds_every-of_each [] held h = refl
holds_every-of_each (y ∷ ys) held h =
    let here = h y (ground (arith, eq_refl y)) in
    let rest = holds_every-of_each ys held (λ x a. h x (ground (arith, a))) in ground arith

scopes_guard_iff :
    (required : Option (List String)) (user : Option AuthUser)
    → (scopes_guard required user ≡ ok true) ↔ (
        (scope : String)
        → includes (asked required) scope ≡ true
        → includes (scopes_of user) scope ≡ true)
unfolding scopes_guard
scopes_guard_iff none user = (λ h x a. absurd (cc), λ h. refl)
scopes_guard_iff (some []) user = (λ h x a. absurd (cc), λ h. refl)
scopes_guard_iff (some (s ∷ ss)) user = (
  λ h x a. holds_every-each (s ∷ ss) (scopes_of user) x (ground arith) a,
  λ h. (let all = holds_every-of_each (s ∷ ss) (scopes_of user) h in ground arith),
)

-- A request passes the guard on roles exactly when none are asked for, or its user has one of them, and the
-- guard on scopes exactly when its user has each scope that is asked for.
guards_iff :
    (required_roles required_scopes : Option (List String)) (user : Option AuthUser)
    → ((roles_guard required_roles user ≡ ok true) ↔ (
        (asked required_roles ≡ [])
        ⊎ ((role : String) × (includes (asked required_roles) role ≡ true)
            × (includes (roles_of user) role ≡ true))))
      × ((scopes_guard required_scopes user ≡ ok true) ↔ (
          (scope : String)
          → includes (asked required_scopes) scope ≡ true
          → includes (scopes_of user) scope ≡ true))
guards_iff required_roles required_scopes user =
    (roles_guard_iff required_roles user, scopes_guard_iff required_scopes user)
