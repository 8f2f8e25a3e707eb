-- ===== src/Files/Tests.antt =====
-- Uploads in a database of files alone, where every update finds its row.
use nest_js_ecomm_rd.Base.{
  String, ◌≡◌, ◌⊎◌, str_eq, if◌then◌else◌, refl, Bool, true, false, none, some, List, [], ◌∷◌,
  decimal, arith,
}
use nest_js_ecomm_rd.Errors.{Result, ok, ◌>>=◌}
use nest_js_ecomm_rd.Files.Storage.{
  S3Service, found, HeadError, object_exists, s3_service, build_public_url,
}
use nest_js_ecomm_rd.Auth.{AuthUser}
use nest_js_ecomm_rd.Database.{find_by}
use nest_js_ecomm_rd.Files.Store.{
  pending, ready, private, FileRecord, file_id, NewFile, IsSavedFile, FilesOrm,
}
use nest_js_ecomm_rd.Files.Service.{
  PresignFileDto, CompleteUploadDto, assert_can_presign, validate_upload_input, build_object_key,
  create_presigned_upload, complete_upload, attach_file_to_domain,
  assert_avatar_key_belongs_to_owner,
}
use nest_js_ecomm_rd.Files.Uploads.{IsBound, presign_then_complete, complete_upload_checks}

abbrev to_file : NewFile → FileRecord
to_file n = record {
  id = "f1";
  owner_id = n.owner_id;
  entity_id = n.entity_id;
  key = n.key;
  content_type = n.content_type;
  size = n.size;
  status = n.status;
  visibility = n.visibility;
  created_at = 0;
  updated_at = 0;
}

abbrev insert_file : NewFile → List FileRecord → Result (FileRecord × List FileRecord)
insert_file n s = ok (to_file n, to_file n ∷ s)

insert_file-saves :
    (n : NewFile) (s : List FileRecord) (file : FileRecord) (s' : List FileRecord)
    → insert_file n s ≡ ok (file, s')
    → IsSavedFile n file × (s' ≡ file ∷ s)
insert_file-saves n s file s' h = ground arith

abbrev orm : FilesOrm (List FileRecord)
orm = record {
  files = λ s. s;
  find_file = λ id s. find_by file_id id s;
  product_exists = λ id s. true;
  insert_file = insert_file;
  save_file = λ file s. ok (file, s);
  update_avatar = λ user file s. ok (1, s);
  update_image = λ product file s. ok (1, s);
  find_file_lem = λ id s. refl;
  insert_file_lem = insert_file-saves;
}

abbrev ann : AuthUser
ann = record {
  sub = "u1";
  email = "ann@example.com";
  roles = "user" ∷ [];
  scopes = "files:write" ∷ [];
}

abbrev dto : PresignFileDto
dto = record {
  content_type = "image/png";
  size_bytes = decimal false 1000 0;
  kind = "avatar";
  product_id = none;
}

abbrev completion : CompleteUploadDto
completion = record { file_id = "f1"; bind_to = "avatar"; product_id = none }

abbrev file : FileRecord
file = record {
  id = "f1";
  owner_id = "u1";
  entity_id = none;
  key = "users/u1/avatars/x.png";
  content_type = "image/png";
  size = 1000;
  status = pending;
  visibility = private;
  created_at = 0;
  updated_at = 0;
}

abbrev done : FileRecord
done = record file { status = ready; entity_id = some "u1" }

-- The storage has every object, or fails.
abbrev stored : String → Result Bool
stored = object_exists (λ key. found)

abbrev refused : HeadError
refused = record { metadata_code = some 403; status_code = none; message = "Forbidden" }

abbrev s3 : S3Service
s3 = record {
  region = "eu-central-1";
  bucket = "shop";
  cloudfront_base_url = none;
  default_expires_in_sec = decimal false 900 0;
  credentials = none;
}

presign_then_complete_example :
    complete_upload orm stored completion ann (file ∷ [])
    ≡ orm.save_file (record file { status = ready; entity_id = some "u1" }) (file ∷ [])
unfolding create_presigned_upload assert_can_presign validate_upload_input build_object_key
    object_exists
presign_then_complete_example =
    presign_then_complete orm stored "x" ann dto completion [] file (file ∷ []) (file ∷ []) 0 refl
      refl refl refl refl refl

complete_upload_checks_example :
    (before : FileRecord) × (target : String) × (s₁ : List FileRecord) × (find_by file_id "f1"
        (file ∷ [])
      ≡ some before)
    × (before.owner_id ≡ "u1")
    × ((before.status ≡ ready) ⊎ (stored before.key ≡ ok true))
    × IsBound orm completion ann before target
    × (orm.save_file (record before { status = ready; entity_id = some target }) s₁
        ≡ ok (done, file ∷ []))
unfolding complete_upload attach_file_to_domain assert_avatar_key_belongs_to_owner object_exists
complete_upload_checks_example =
    complete_upload_checks orm stored completion ann (file ∷ []) done (file ∷ []) refl

-- A base address loses the slashes at its end, and a missing setting is noticed.
s3_service_example :
    (s3_service
        (λ s. decimal false 60 0)
        (λ name.
          if str_eq name "CLOUDFRONT_BASE_URL"
          then some "https://cdn.shop//"
          else if str_eq name "AWS_S3_BUCKET"
          then some "shop"
          else none)
      >>= λ s. ok (build_public_url s "users/u1/x.png"))
    ≡ ok "https://cdn.shop/users/u1/x.png"
unfolding s3_service build_public_url
s3_service_example = refl
