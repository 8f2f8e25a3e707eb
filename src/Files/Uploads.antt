-- ===== src/Files/Uploads.antt =====
-- An upload from its start to its completion.
use nest_js_ecomm_rd.Base.{
  ℕ, suc, ◌≤◌, String, ◌≡◌, ◌⊎◌, refl, sym, ap, subst, ◌∙◌, Bool, true, false, some, arith, inl,
  inr, eq_iff, eq_refl, truthy, includes, ◌∷◌, Option-cases, Bool-cases, is_integer, is_positive,
  to_ℕ,
}
use nest_js_ecomm_rd.Errors.{Result, >>-eq-ok, ok, >>=-eq-ok, or_throw-eq-ok, Result-cases}
use nest_js_ecomm_rd.Auth.{AuthUser}
use nest_js_ecomm_rd.Database.{find_by}
use nest_js_ecomm_rd.Files.Store.{pending, ready, FileRecord, file_id, FilesOrm}
use nest_js_ecomm_rd.Files.Service.{
  PresignFileDto, CompleteUploadDto, is_avatar, avatar_prefix, allowed_content_types,
  max_image_bytes, assert_can_presign, validate_upload_input, build_object_key, new_file,
  create_presigned_upload, assert_avatar_key_belongs_to_owner, with_entity, confirm, assert_owner,
  find_by_id_or_throw, image_prefix, assert_product_key_matches_target, attach_file_to_domain,
  complete_upload,
}
use text.Mathlib.Text.{starts_with}
use nest_js_ecomm_rd.Files.Keys.{build_object_key-avatar}

module _ {S : Type 0} (orm : FilesOrm S) where
  -- What a presigned upload has been checked for, and the row that it has.
  pub record IsPresigned (uuid : String) (user : AuthUser) (dto : PresignFileDto) (s : S)
      (file : FileRecord) (s' : S) : Type 0 where
    pub may : assert_can_presign user dto.kind ≡ ok tt
    pub valid : validate_upload_input orm dto s ≡ ok tt
    pub key : build_object_key uuid dto.kind user.sub dto.content_type dto.product_id ≡ ok file.key
    pub owner : file.owner_id ≡ user.sub
    pub size : file.size ≡ to_ℕ dto.size_bytes
    pub status : file.status ≡ pending
    pub stored : orm.files s' ≡ file ∷ orm.files s

  create_presigned_upload-IsPresigned :
      (uuid : String) (user : AuthUser) (dto : PresignFileDto) (s : S) (file : FileRecord) (s' : S)
      → create_presigned_upload orm uuid user dto s ≡ ok (file, s')
      → IsPresigned uuid user dto s file s'
  unfolding create_presigned_upload
  create_presigned_upload-IsPresigned uuid user dto s file s' h =
      let (may, e₁) = >>-eq-ok (assert_can_presign user dto.kind) _ h in
      let (valid, e₂) = >>-eq-ok (validate_upload_input orm dto s) _ e₁ in
      let (key, made, e₃) =
        >>=-eq-ok (build_object_key uuid dto.kind user.sub dto.content_type dto.product_id) _ e₂ in
      let (row, stored) = orm.insert_file_lem (new_file user dto key) s file s' e₃ in
      record {
        may = may;
        valid = valid;
        key = made ∙ ap ok (sym row.key);
        owner = row.owner_id;
        size = row.size;
        status = row.status;
        stored = stored;
      }

  -- A presigned upload has an allowed type and a size from 1 byte to 5 MiB.
  validate-bounds :
      (dto : PresignFileDto) (s : S)
      → validate_upload_input orm dto s ≡ ok tt
      → (includes allowed_content_types dto.content_type ≡ true)
        × (is_integer dto.size_bytes ≡ true)
        × (is_positive dto.size_bytes ≡ true)
        × (to_ℕ dto.size_bytes ≤ max_image_bytes)
  unfolding validate_upload_input
  validate-bounds dto s h = (ground arith, ground arith, ground arith, ground arith)

  -- The owner of a presigned avatar completes it as soon as the object is in the storage.
  complete_upload_presigned :
      (object_exists : String → Result Bool) (user : AuthUser) (dto : CompleteUploadDto)
      (file : FileRecord) (s s' : S) (n : ℕ)
      → orm.find_file dto.file_id s ≡ some file
      → file.owner_id ≡ user.sub
      → file.status ≡ pending
      → object_exists file.key ≡ ok true
      → is_avatar dto.bind_to ≡ true
      → assert_avatar_key_belongs_to_owner file.key user.sub ≡ ok tt
      → orm.update_avatar user.sub file.id s ≡ ok (suc n, s')
      → complete_upload orm object_exists dto user s
        ≡ orm.save_file (record file { status = ready; entity_id = some user.sub }) s'
  unfolding complete_upload attach_file_to_domain
  complete_upload_presigned object_exists user dto file s s' n found own fresh there avatar fits
        written =
      ground (arith, eq_iff file.owner_id user.sub)

  -- An avatar upload that was presigned can be completed by the same user: if the object is in the storage
  -- and the user's row takes the avatar, then what is saved is the row of the upload, now ready and bound
  -- to the user.
  pub presign_then_complete :
      (object_exists : String → Result Bool) (uuid : String) (user : AuthUser)
      (dto : PresignFileDto) (done : CompleteUploadDto) (s : S) (file : FileRecord) (s' s'' : S)
      (n : ℕ)
      → create_presigned_upload orm uuid user dto s ≡ ok (file, s')
      → is_avatar dto.kind ≡ true
      → done.file_id ≡ file.id
      → is_avatar done.bind_to ≡ true
      → object_exists file.key ≡ ok true
      → orm.update_avatar user.sub file.id s' ≡ ok (suc n, s'')
      → complete_upload orm object_exists done user s'
        ≡ orm.save_file (record file { status = ready; entity_id = some user.sub }) s''
  presign_then_complete object_exists uuid user dto done s file s' s'' n h kind same bind there
        written =
      let p = create_presigned_upload-IsPresigned uuid user dto s file s' h in
      let fits =
        build_object_key-avatar uuid dto.kind user.sub dto.content_type dto.product_id file.key kind
          p.key in
      let found : orm.find_file done.file_id s' ≡ some file =
        orm.find_file_lem done.file_id s' ∙ ground (arith, p.stored, same, eq_refl file.id) in
      complete_upload_presigned object_exists user done file s' s'' n found p.owner p.status there
        bind fits written

  -- The file's key is one that may be bound to the target.
  abbrev pub IsBound : CompleteUploadDto → AuthUser → FileRecord → String → Type 0
  IsBound dto user file target =
      ((is_avatar dto.bind_to ≡ true)
        × (target ≡ user.sub)
        × (starts_with file.key (avatar_prefix user.sub) ≡ true))
      ⊎ ((is_avatar dto.bind_to ≡ false)
          × (truthy dto.product_id ≡ some target)
          × (starts_with file.key (image_prefix target) ≡ true))

  attach-IsBound :
      (dto : CompleteUploadDto) (file : FileRecord) (user : AuthUser) (s : S)
      (attached : FileRecord) (s' : S)
      → attach_file_to_domain orm dto file user s ≡ ok (attached, s')
      → (target : String) × (attached ≡ with_entity target file) × IsBound dto user file target
  unfolding attach_file_to_domain assert_avatar_key_belongs_to_owner
      assert_product_key_matches_target
  attach-IsBound dto file user s attached s' h = elim (Bool-cases (is_avatar dto.bind_to)) [
    | inl avatar ↦ elim (Result-cases (orm.update_avatar user.sub file.id s)) [
      | inr (x, failed) ↦ absurd (ground arith)
      | inl ((n, s₁), written) ↦ (user.sub, ground arith, inl (avatar, refl, ground arith))
    ]
    | inr other ↦ elim (Option-cases (truthy dto.product_id)) [
      | inl missing ↦ absurd (ground arith)
      | inr (id, given) ↦ elim (Result-cases (orm.update_image id file.id s)) [
        | inr (x, failed) ↦ absurd (ground arith)
        | inl ((n, s₁), written) ↦ (id, ground arith, inr (other, given, ground arith))
      ]
    ]
  ]

  confirm-ready :
      (object_exists : String → Result Bool) (file confirmed : FileRecord)
      → confirm object_exists file ≡ ok confirmed
      → (confirmed ≡ record file { status = ready })
        × ((file.status ≡ ready) ⊎ (object_exists file.key ≡ ok true))
  confirm-ready object_exists file confirmed h = (ground arith, ground arith)

  -- An upload that is completed was found, belongs to the user, and was ready before or has its object in
  -- the storage; its key is under the prefix of what it is bound to, the user's own avatars or the images
  -- of the given product; and what is saved is this row, ready and bound to that.
  pub complete_upload_checks :
      (object_exists : String → Result Bool) (dto : CompleteUploadDto) (user : AuthUser) (s : S)
      (saved : FileRecord) (s' : S)
      → complete_upload orm object_exists dto user s ≡ ok (saved, s')
      → (file : FileRecord) × (target : String) × (s₁ : S) × (find_by file_id dto.file_id
            (orm.files s)
          ≡ some file)
        × (file.owner_id ≡ user.sub)
        × ((file.status ≡ ready) ⊎ (object_exists file.key ≡ ok true))
        × IsBound dto user file target
        × (orm.save_file (record file { status = ready; entity_id = some target }) s₁
            ≡ ok (saved, s'))
  unfolding complete_upload
  complete_upload_checks object_exists dto user s saved s' h =
      let (file, found, e₁) = >>=-eq-ok (find_by_id_or_throw orm dto.file_id s) _ h in
      let (own, e₂) = >>-eq-ok (assert_owner file user) _ e₁ in
      let (confirmed, checked, e₃) = >>=-eq-ok (confirm object_exists file) _ e₂ in
      let ((attached, s₁), bound, e₄) =
        >>=-eq-ok (attach_file_to_domain orm dto confirmed user s) _ e₃ in
      let (ready_now, because) = confirm-ready object_exists file confirmed checked in
      let (target, entity, fits) = attach-IsBound dto confirmed user s attached s₁ bound in
      (
        file,
        target,
        s₁,
        sym (orm.find_file_lem dto.file_id s) ∙ or_throw-eq-ok _ _ found,
        ground (arith, own, eq_iff file.owner_id user.sub),
        because,
        subst (λ f. IsBound dto user f target) ready_now fits,
        ap (λ f. orm.save_file f s₁) (sym (entity ∙ ap (with_entity target) ready_now)) ∙ e₄,
      )
