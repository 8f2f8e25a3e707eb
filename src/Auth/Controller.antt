-- ===== src/Auth/Controller.antt =====
-- src/auth/auth.controller.ts, and the strategy behind its guard (src/auth/jwt.strategy.ts). The token of the
-- request, and what JWT verifies, are the work of passport and so arguments.
use nest_js_ecomm_rd.Base.{
  inl, inr, String, ◌≡◌, ap, ◌∙◌, Bool, Option, none, some, truthy, arith, Option-cases,
}
use nest_js_ecomm_rd.Errors.{Result, ok, err, unauthorized}
use nest_js_ecomm_rd.Entities.{User}
use nest_js_ecomm_rd.Auth.{JwtPayload, AuthUser, payload_of, login}

-- `JwtStrategy.validate`
abbrev pub validate : JwtPayload → AuthUser
validate payload = record {
  sub = payload.sub;
  email = payload.email;
  roles = payload.roles;
  scopes = payload.scopes;
}

-- `GET /auth/me` behind `JwtAuthGuard`, for the bearer token of the request.
unfoldable pub me : (String → Option JwtPayload) → Option String → Result AuthUser
me verify none = err (unauthorized "Unauthorized")
me verify (some token) = elim (verify token) [
  | none ↦ err (unauthorized "Unauthorized")
  | some payload ↦ ok (validate payload)
]

-- A token that `POST /auth/login` has answered shows, at `GET /auth/me`, the user it was given to.
me-login :
    (find_by_email : String → Option User) (compare : String → String → Bool)
    (sign : JwtPayload → String) (verify : String → Option JwtPayload)
    (email password token : String)
    → ((payload : JwtPayload) → verify (sign payload) ≡ some payload)
    → login find_by_email compare sign email password ≡ ok token
    → (user : User) × (find_by_email email ≡ some user)
      × (me verify (some token) ≡ ok (payload_of user))
unfolding me login
me-login find_by_email compare sign verify email password token signed h =
    elim (Option-cases (find_by_email email)) [
      | inl missing ↦ absurd (ground (arith, missing))
      | inr (user, found) ↦ elim (Option-cases (truthy user.password_hash)) [
        | inl bare ↦ absurd (ground (arith, found, bare))
        | inr (hash, kept) ↦
            let given : token ≡ sign (payload_of user) = ground (arith, found, kept) in
            let read = ap verify given ∙ signed (payload_of user) in
            (user, found, ground (arith, read))
      ]
    ]
