-- ===== src/Users/Tests.antt =====
-- Users in a table that is a list.
use nest_js_ecomm_rd.Base.{
  String, ◌≡◌, ◌≢◌, refl, Bool, ◌&&◌, Option, none, some, List, [], ◌∷◌, get_or, str_eq, arith,
}
use nest_js_ecomm_rd.Errors.{ok}
use nest_js_ecomm_rd.Entities.{User}
use nest_js_ecomm_rd.Database.{find_by, user_id, listed}
use nest_js_ecomm_rd.Auth.{JwtPayload}
use nest_js_ecomm_rd.Users.{
  NewUser, HasColumns, UserUpdates, UserRepository, merge, get_user, update_user,
}
use nest_js_ecomm_rd.Users.Laws.{update_user_effect}
use nest_js_ecomm_rd.Users.Register.{email_of}

-- The new row has the identifier `u2`.
abbrev to_user : NewUser → User
to_user n = record {
  id = "u2";
  email = n.email;
  password_hash = n.password_hash;
  roles = get_or n.roles [];
  scopes = get_or n.scopes [];
  avatar_file_id = none;
}

makes : (n : NewUser) (user : User) → some (to_user n) ≡ some user → HasColumns n user
makes n user h = record {
  email = ground arith;
  password_hash = ground arith;
  roles = ground arith;
  scopes = ground arith;
}

abbrev users : UserRepository (List User)
users = listed user_id HasColumns merge (λ n. some (to_user n)) makes

abbrev ann : User
ann = record {
  id = "u1";
  email = "ann@example.com";
  password_hash = some "#secret";
  roles = "user" ∷ [];
  scopes = [];
  avatar_file_id = none;
}

abbrev find_by_email : String → List User → Option User
find_by_email email rows = find_by email_of email rows

abbrev hash : String → String
hash password = "#another"

abbrev compare : String → String → Bool
compare password hashed = str_eq password "another" && str_eq hashed "#another"

abbrev sign : JwtPayload → String
sign payload = payload.sub

abbrev bob : User
bob = record {
  id = "u2";
  email = "bob@example.com";
  password_hash = some "#another";
  roles = "admin" ∷ [];
  scopes = [];
  avatar_file_id = none;
}

-- The identifier in the body is Bob's, the one in the path is Ann's.
abbrev updates : UserUpdates
updates = record {
  id = some "u2";
  email = none;
  password_hash = none;
  roles = some [];
  scopes = none;
  avatar_file_id = none;
}

abbrev demoted : User
demoted = record bob { roles = [] }

update_user_effect_example :
    (before : User) × (find_by user_id "u2" (bob ∷ ann ∷ []) ≡ some before)
    × (demoted ≡ merge updates before)
    × (get_user users "u2" (demoted ∷ ann ∷ []) ≡ ok demoted)
    × ((other : String)
        → other ≢ "u2"
        → get_user users other (demoted ∷ ann ∷ []) ≡ get_user users other (bob ∷ ann ∷ []))
unfolding update_user
update_user_effect_example =
    update_user_effect users "u1" updates (bob ∷ ann ∷ []) demoted (demoted ∷ ann ∷ []) refl
