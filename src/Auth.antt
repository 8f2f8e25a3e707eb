-- ===== src/Auth.antt =====
-- src/auth: login and the guards on roles and scopes. bcrypt, JWT and the query are libraries:
-- `compare`, `sign` and `find_by_email` are arguments.
pub mod Laws
mod Controller
use nest_js_ecomm_rd.Base.{
  String, Bool, true, false, ◌&&◌, ◌||◌, not, Option, none, some, List, [], ◌∷◌, includes, truthy,
  if◌then◌else◌,
}
use nest_js_ecomm_rd.Errors.{Result, ok, err, unauthorized, forbidden}
use nest_js_ecomm_rd.Entities.{User}

pub record JwtPayload : Type 0 where
  pub sub : String
  pub email : String
  pub roles : List String
  pub scopes : List String

-- `AuthUser` has the same fields.
abbrev pub AuthUser : Type 0
AuthUser = JwtPayload

-- `required.some((x) => held.includes(x))`
abbrev pub holds_some : List String → List String → Bool
holds_some [] held = false
holds_some (x ∷ xs) held = includes held x || holds_some xs held

-- `required.every((x) => held.includes(x))`
abbrev pub holds_every : List String → List String → Bool
holds_every [] held = true
holds_every (x ∷ xs) held = includes held x && holds_every xs held

-- `req.user?.roles ?? []`
abbrev pub roles_of : Option AuthUser → List String
roles_of none = []
roles_of (some user) = user.roles

abbrev pub scopes_of : Option AuthUser → List String
scopes_of none = []
scopes_of (some user) = user.scopes

-- `RolesGuard.canActivate`, on the roles that the handler or its class asks for.
unfoldable pub roles_guard : Option (List String) → Option AuthUser → Result Bool
roles_guard none user = ok true
roles_guard (some []) user = ok true
roles_guard (some (r ∷ rs)) user =
    if not (holds_some (r ∷ rs) (roles_of user))
    then err (forbidden "Insufficient role")
    else ok true

-- `ScopesGuard.canActivate`
unfoldable pub scopes_guard : Option (List String) → Option AuthUser → Result Bool
scopes_guard none user = ok true
scopes_guard (some []) user = ok true
scopes_guard (some (s ∷ ss)) user =
    if not (holds_every (s ∷ ss) (scopes_of user))
    then err (forbidden "Insufficient scope")
    else ok true

abbrev pub payload_of : User → JwtPayload
payload_of user = record {
  sub = user.id;
  email = user.email;
  roles = user.roles;
  scopes = user.scopes;
}

module _ (find_by_email : String → Option User) (compare : String → String → Bool)
    (sign : JwtPayload → String) where
  -- With the user's hash at hand.
  abbrev check_password : User → Option String → String → Result String
  check_password user none password = err (unauthorized "Invalid credentials")
  check_password user (some hash) password =
      if not (compare password hash)
      then err (unauthorized "Invalid credentials")
      else ok (sign (payload_of user))

  -- `AuthService.login`: an empty hash counts as none.
  unfoldable pub login : String → String → Result String
  login email password = elim (find_by_email email) [
    | none ↦ err (unauthorized "Invalid credentials")
    | some user ↦ check_password user (truthy user.password_hash) password
  ]
