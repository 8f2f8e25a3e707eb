-- ===== src/Realtime/Login.antt =====
-- From `AuthService.login` to a socket with the user.
use nest_js_ecomm_rd.Base.{
  String, ◌≡◌, ◌≢◌, inl, inr, true, Bool, Option, some, arith, eq_iff, truthy, Option-cases,
}
use nest_js_ecomm_rd.Errors.{ok}
use nest_js_ecomm_rd.Entities.{User}
use nest_js_ecomm_rd.Auth.{JwtPayload, payload_of, login}
use nest_js_ecomm_rd.Realtime.Gateway.{Handshake, Socket, handle_connection}

-- A token is given out only for an email with a user whose password hash matches; and a socket that
-- connects with it is that user's, with the user's roles and scopes, while JWT verifies the token that it
-- signed for the user (and signs with no empty token).
pub login_connects :
    (sign : JwtPayload → String) (verify : String → Option JwtPayload)
    (find_by_email : String → Option User) (compare : String → String → Bool)
    (email password token : String) (user : User) (query bearer : Option String) (client : Socket)
    → find_by_email email ≡ some user
    → sign (payload_of user) ≢ ""
    → verify (sign (payload_of user)) ≡ some (payload_of user)
    → login find_by_email compare sign email password ≡ ok token
    → let handshake : Handshake = record {
      auth_token = some token;
      bearer = bearer;
      query_token = query;
    } in
      (hash : String) × (user.password_hash ≡ some hash)
      × (compare password hash ≡ true)
      × ((handle_connection verify handshake client).user ≡ some (payload_of user))
unfolding login handle_connection
login_connects sign verify find_by_email compare email password token user query bearer client known
      named read h =
    elim (Option-cases (truthy user.password_hash)) [
      | inl no_hash ↦ absurd (ground arith)
      | inr (hash, hashed) ↦
          let signed : sign (payload_of user) ≡ token = ground arith in
          (hash, ground arith, ground arith, ground (arith, signed, read, named, eq_iff token ""))
    ]
