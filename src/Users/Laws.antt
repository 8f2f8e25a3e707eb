-- ===== src/Users/Laws.antt =====
-- What an update of a user changes.
use nest_js_ecomm_rd.Base.{String, ◌≡◌, ◌≢◌, inl, inr, some, get_or, arith, Option-cases}
use nest_js_ecomm_rd.Errors.{ok}
use nest_js_ecomm_rd.Entities.{User}
use nest_js_ecomm_rd.Database.{user_id, find_by, find_by-key, save-find_one}
use nest_js_ecomm_rd.Users.{UserRepository, UserUpdates, merge, get_user, update_user}

module _ {S : Type 0} (repository : UserRepository S) where
  -- The user that an update is about: the identifier in the updates comes before that of the request.
  abbrev pub target : String → UserUpdates → String
  target id updates = get_or updates.id id

  -- An update that succeeds has found the user that it is about, whose row then has the updates merged in
  -- and its identifier as before, and answers it; the row of every other user stays as it was.
  pub update_user_effect :
      (id : String) (updates : UserUpdates) (s : S) (user : User) (s' : S)
      → update_user repository id updates s ≡ ok (user, s')
      → (before : User) × (find_by user_id (target id updates) (repository.rows s) ≡ some before)
        × (user ≡ merge updates before)
        × (get_user repository (target id updates) s' ≡ ok user)
        × ((other : String)
            → other ≢ target id updates
            → get_user repository other s' ≡ get_user repository other s)
  unfolding update_user get_user
  update_user_effect id updates s user s' h =
      let key = target id updates in
      elim (Option-cases (find_by user_id key (repository.rows s))) [
        | inl missing ↦
            let unloaded = repository.preload-none key updates s missing in
            absurd (ground (arith, unloaded))
        | inr (before, found) ↦
            let loaded = repository.preload-some key updates s before found in
            let saved : repository.save (merge updates before) s ≡ ok (user, s') =
              ground (arith, loaded) in
            let own = find_by-key user_id key (repository.rows s) before found in
            let (same, there, others) =
              save-find_one repository key (merge updates before) before user s s' own found
                saved in
            (
              before,
              found,
              same,
              ground (arith, there),
              λ other differs. ground (arith, others other differs),
            )
      ]
