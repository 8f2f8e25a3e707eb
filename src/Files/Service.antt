-- ===== src/Files/Service.antt =====
-- The operations of `FilesService`. `object_exists` of the storage and the random identifier are arguments.
-- An operation that throws gives no database here: without a transaction, it keeps what was written until then.
use nest_js_ecomm_rd.Base.{
  ℕ, String, Bool, true, false, not, ◌&&◌, ◌||◌, Option, none, some, List, [], ◌∷◌, includes,
  truthy, if◌then◌else◌, str_eq, ltb, Number, is_integer, is_positive, to_ℕ, ◌==◌,
}
use nest_js_ecomm_rd.Errors.{
  bad_request, not_found, forbidden, Result, ok, err, ◌>>=◌, ◌>>◌, or_throw, throw_if,
}
use nest_js_ecomm_rd.Auth.{AuthUser, holds_some}
use nest_js_ecomm_rd.Files.Store.{
  FileStatus, pending, ready, private, FileRecord, NewFile, FilesOrm,
}
use Prim.Native.String.{◌++◌ as concat}
use text.Mathlib.Text.{starts_with}

-- `productId` is absent where it is undefined; `kind` is any text.
pub record PresignFileDto : Type 0 where
  pub content_type : String
  pub size_bytes : Number
  pub kind : String
  pub product_id : Option String

pub record CompleteUploadDto : Type 0 where
  pub file_id : String
  pub bind_to : String
  pub product_id : Option String

abbrev pub allowed_content_types : List String
allowed_content_types = "image/jpeg" ∷ "image/png" ∷ "image/webp" ∷ []

-- `EXTENSION_BY_TYPE[contentType] ?? 'bin'`
abbrev pub extension : String → String
extension content_type =
    if str_eq content_type "image/jpeg"
    then "jpg"
    else if str_eq content_type "image/png"
    then "png"
    else if str_eq content_type "image/webp"
    then "webp"
    else "bin"

abbrev pub max_image_bytes : ℕ
max_image_bytes = 5242880

abbrev pub is_avatar : String → Bool
is_avatar kind = str_eq kind "avatar"

abbrev pub is_product_image : String → Bool
is_product_image kind = str_eq kind "product-image"

unfoldable pub assert_can_presign : AuthUser → String → Result (Unit {0})
assert_can_presign user kind =
    if not (holds_some user.roles ("user" ∷ "support" ∷ "admin" ∷ []))
    then err (forbidden "Role is not allowed to upload files")
    else if includes user.roles "admin"
    then ok tt
    else if not (
        includes user.scopes "files:write"
        || (is_product_image kind && includes user.scopes "products:images:write"))
    then err (forbidden "Insufficient scope for file upload")
    else ok tt

abbrev pub avatar_prefix : String → String
avatar_prefix user_id = concat "users/" (concat user_id "/avatars/")

abbrev pub image_prefix : String → String
image_prefix product_id = concat "products/" (concat product_id "/images/")

abbrev pub file_name : String → String → String
file_name uuid content_type = concat uuid (concat "." (extension content_type))

unfoldable pub build_object_key : String → String → String → String → Option String → Result String
build_object_key uuid kind user_id content_type product_id =
    if is_avatar kind
    then ok (concat (avatar_prefix user_id) (file_name uuid content_type))
    else elim (truthy product_id) [
      | none ↦ err (bad_request "productId is required for product-image uploads")
      | some id ↦ ok (concat (image_prefix id) (file_name uuid content_type))
    ]

unfoldable pub assert_avatar_key_belongs_to_owner : String → String → Result (Unit {0})
assert_avatar_key_belongs_to_owner key user_id =
    throw_if (not (starts_with key (avatar_prefix user_id)))
      (bad_request "File key does not match avatar binding")

unfoldable pub assert_product_key_matches_target : String → String → Result (Unit {0})
assert_product_key_matches_target key product_id =
    throw_if (not (starts_with key (image_prefix product_id)))
      (bad_request "File key does not match product-image binding")

abbrev pub assert_owner : FileRecord → AuthUser → Result (Unit {0})
assert_owner file user =
    throw_if (not (str_eq file.owner_id user.sub))
      (forbidden "File does not belong to current user")

abbrev pub is_ready : FileStatus → Bool
is_ready pending = false
is_ready ready = true

-- `file.entityId = …`, `file.status = …`
abbrev pub with_entity : String → FileRecord → FileRecord
with_entity id file = record file { entity_id = some id }

abbrev pub affected : ℕ → String → Result (Unit {0})
affected n message = throw_if (n == 0) (not_found message)

-- The row that is inserted.
abbrev pub new_file : AuthUser → PresignFileDto → String → NewFile
new_file user dto key = record {
  owner_id = user.sub;
  entity_id = if is_product_image dto.kind then dto.product_id else none;
  key = key;
  content_type = dto.content_type;
  size = to_ℕ dto.size_bytes;
  status = pending;
  visibility = private;
}

-- `if (file.status === FileStatus.PENDING) { … }`
abbrev pub confirm : (String → Result Bool) → FileRecord → Result FileRecord
confirm object_exists file =
    if is_ready file.status
    then ok file
    else (object_exists file.key >>= λ exists.
        if not exists
        then err (bad_request "File object is missing in storage")
        else ok (record file { status = ready }))

module _ {S : Type 0} (orm : FilesOrm S) where
  abbrev pub find_by_id_or_throw : String → S → Result FileRecord
  find_by_id_or_throw id s = or_throw (orm.find_file id s) (not_found "File not found")

  -- The product that a product image is for.
  abbrev validate_product : Option String → S → Result (Unit {0})
  validate_product none s = err (bad_request "productId is required for product-image uploads")
  validate_product (some id) s =
      throw_if (not (orm.product_exists id s)) (not_found "Product not found")

  unfoldable pub validate_upload_input : PresignFileDto → S → Result (Unit {0})
  validate_upload_input dto s =
      if not (includes allowed_content_types dto.content_type)
      then err (bad_request "Unsupported contentType. Allowed: image/jpeg, image/png, image/webp")
      else if not (is_integer dto.size_bytes && is_positive dto.size_bytes)
      then err (bad_request "sizeBytes must be a positive integer")
      else if ltb max_image_bytes (to_ℕ dto.size_bytes)
      then err (bad_request "Max file size is 5242880 bytes")
      else if is_avatar dto.kind
      then elim (truthy dto.product_id) [
        | some id ↦ err (bad_request "productId is not allowed for avatar uploads")
        | none ↦ ok tt
      ]
      else if is_product_image dto.kind
      then validate_product (truthy dto.product_id) s
      else err (bad_request "Unsupported kind")

  -- `createPresignedUpload` up to the saved row, from which the answer is made.
  unfoldable pub create_presigned_upload :
      String → AuthUser → PresignFileDto → S → Result (FileRecord × S)
  create_presigned_upload uuid user dto s = do
    assert_can_presign user dto.kind
    validate_upload_input dto s
    key ← build_object_key uuid dto.kind user.sub dto.content_type dto.product_id
    orm.insert_file (new_file user dto key) s

  -- `attachFileToDomain`
  abbrev attach_avatar : FileRecord → AuthUser → S → Result (FileRecord × S)
  attach_avatar file user s = do
    assert_avatar_key_belongs_to_owner file.key user.sub
    (n, s') ← orm.update_avatar user.sub file.id s
    affected n "User not found"
    ok (with_entity user.sub file, s')

  abbrev attach_image : FileRecord → Option String → S → Result (FileRecord × S)
  attach_image file none s = err (bad_request "productId is required for product-image binding")
  attach_image file (some id) s = do
    assert_product_key_matches_target file.key id
    (n, s') ← orm.update_image id file.id s
    affected n "Product not found"
    ok (with_entity id file, s')

  unfoldable pub attach_file_to_domain :
      CompleteUploadDto → FileRecord → AuthUser → S → Result (FileRecord × S)
  attach_file_to_domain dto file user s =
      if is_avatar dto.bind_to
      then attach_avatar file user s
      else attach_image file (truthy dto.product_id) s

  -- `completeUpload`, up to the view of the saved row.
  unfoldable pub complete_upload :
      (String → Result Bool) → CompleteUploadDto → AuthUser → S → Result (FileRecord × S)
  complete_upload object_exists dto user s = do
    file ← find_by_id_or_throw dto.file_id s
    assert_owner file user
    confirmed ← confirm object_exists file
    (attached, s') ← attach_file_to_domain dto confirmed user s
    orm.save_file attached s'

  -- `assertOwnerOrStaff`
  abbrev assert_owner_or_staff : FileRecord → AuthUser → Result (Unit {0})
  assert_owner_or_staff file user =
      throw_if
        (not (str_eq file.owner_id user.sub)
          && not (includes user.roles "admin" || includes user.roles "support"))
        (forbidden "Access denied")

  unfoldable pub get_file_by_id : String → AuthUser → S → Result FileRecord
  get_file_by_id id user s = do
    file ← find_by_id_or_throw id s
    assert_owner_or_staff file user
    ok file

  unfoldable pub get_ready_owned_file : String → String → S → Result FileRecord
  get_ready_owned_file id owner_id s = do
    file ← find_by_id_or_throw id s
    throw_if (not (str_eq file.owner_id owner_id))
        (forbidden "You can use only your own uploaded files")
    throw_if (not (is_ready file.status)) (bad_request "File upload is not completed")
    ok file

  unfoldable pub get_ready_file_for_product : String → AuthUser → S → Result FileRecord
  get_ready_file_for_product id user s = do
    file ← find_by_id_or_throw id s
    throw_if (not (is_ready file.status)) (bad_request "File upload is not completed")
    throw_if
        (not (str_eq file.owner_id user.sub)
          && not (includes user.roles "admin" || includes user.scopes "products:images:assign:any"))
        (forbidden "Cannot attach another user file")
    ok file
