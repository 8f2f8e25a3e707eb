-- ===== src/Users.antt =====
-- src/users: `UsersService`, and `UsersController`, which passes on to it. bcrypt's `hash` and the query by
-- email are arguments.
pub mod Laws
pub mod Register
mod Tests
use nest_js_ecomm_rd.Base.{ℕ, String, ◌≡◌, Option, none, some, List, [], get_or, truthy, ◌==◌}
use nest_js_ecomm_rd.Errors.{not_found, Result, ok, err, or_throw, throw_if}
use nest_js_ecomm_rd.Entities.{User}
use nest_js_ecomm_rd.Database.{Repository, user_id}

-- `userToCreate`
pub record NewUser : Type 0 where
  pub email : String
  pub password_hash : Option String
  pub roles : Option (List String)
  pub scopes : Option (List String)

-- A column that is not given takes its default.
pub record HasColumns (n : NewUser) (user : User) : Type 0 where
  pub email : user.email ≡ n.email
  pub password_hash : user.password_hash ≡ n.password_hash
  pub roles : user.roles ≡ get_or n.roles []
  pub scopes : user.scopes ≡ get_or n.scopes []

-- `Partial<User>`: a field is absent where it is undefined; a null is an inner absence.
pub record UserUpdates : Type 0 where
  pub id : Option String
  pub email : Option String
  pub password_hash : Option (Option String)
  pub roles : Option (List String)
  pub scopes : Option (List String)
  pub avatar_file_id : Option (Option String)

abbrev pub merge : UserUpdates → User → User
merge updates user = record user {
  email = get_or updates.email user.email;
  password_hash = get_or updates.password_hash user.password_hash;
  roles = get_or updates.roles user.roles;
  scopes = get_or updates.scopes user.scopes;
  avatar_file_id = get_or updates.avatar_file_id user.avatar_file_id;
}

abbrev pub UserRepository : Type 0 → Type 0
UserRepository S = Repository User NewUser UserUpdates S user_id HasColumns merge

-- `if (password) userToCreate.passwordHash = await bcrypt.hash(password, 10)`
abbrev pub hash_of : (String → String) → Option String → Option String
hash_of hash none = none
hash_of hash (some password) = some (hash password)

abbrev pub new_user :
    (String → String)
    → String
    → Option String
    → Option (List String)
    → Option (List String)
    → NewUser
new_user hash email password roles scopes = record {
  email = email;
  password_hash = hash_of hash (truthy password);
  roles = roles;
  scopes = scopes;
}

module _ {S : Type 0} (repository : UserRepository S) where
  unfoldable pub create :
      (String → S → Option User)
      → (String → String)
      → String
      → Option String
      → Option (List String)
      → Option (List String)
      → S
      → Result (User × S)
  create find_by_email hash email password roles scopes s = elim (find_by_email email s) [
    | some existing ↦ ok (existing, s)
    | none ↦ repository.insert (new_user hash email password roles scopes) s
  ]

  abbrev pub get_all : S → List User
  get_all s = repository.find s

  unfoldable pub get_user : String → S → Result User
  get_user id s = or_throw (repository.find_one id s) (not_found "User not found")

  -- `preload({ id, ...updates })`: an `id` among the updates takes the place of the other.
  unfoldable pub update_user : String → UserUpdates → S → Result (User × S)
  update_user id updates s = elim (repository.preload (get_or updates.id id) updates s) [
    | none ↦ err (not_found "User not found")
    | some user ↦ repository.save user s
  ]

  unfoldable pub delete_user : String → S → Result (Unit {0}) × S
  delete_user id s =
      let (affected, s') = repository.delete id s in
      (throw_if (affected == 0) (not_found "User not found"), s')
