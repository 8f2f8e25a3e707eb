-- ===== src/Users/Register.antt =====
-- From `POST /users` to the login.
use nest_js_ecomm_rd.Base.{String, ◌≡◌, ◌∙◌, Option, some, List, arith}
use nest_js_ecomm_rd.Errors.{ok}
use nest_js_ecomm_rd.Entities.{User}
use nest_js_ecomm_rd.Database.{find_by, find_by-key}
use nest_js_ecomm_rd.Users.{UserRepository, create}

abbrev pub email_of : User → String
email_of user = user.email

module _ {S : Type 0} (repository : UserRepository S) (find_by_email : String → S → Option User)
    (finds : (email : String) (s : S)
      → find_by_email email s ≡ find_by email_of email (repository.rows s)) where
  -- `POST /users` for an email that is in use answers the stored user as it is and writes nothing: the
  -- password, roles and scopes of the request have no effect.
  pub create_known :
      (hash : String → String) (email : String) (password : Option String)
      (roles scopes : Option (List String)) (s : S) (user : User)
      → find_by email_of email (repository.rows s) ≡ some user
      → (create repository find_by_email hash email password roles scopes s ≡ ok (user, s))
        × (user.email ≡ email)
  unfolding create
  create_known hash email password roles scopes s user found =
      let known = finds email s ∙ found in
      (ground (arith, known), find_by-key email_of email (repository.rows s) user found)
