-- ===== src/Files/Views.antt =====
-- What the file endpoints answer (`createPresignedUpload`, `completeUpload`, `getFileById`), with the storage
-- behind them.
use nest_js_ecomm_rd.Base.{
  ℕ, String, ◌≡◌, ◌≢◌, ◌⊎◌, inl, inr, refl, true, false, Option, none, some, Number, arith, eq_iff,
  ◌==◌, Bool-cases,
}
use nest_js_ecomm_rd.Errors.{bad_request, internal, Result, ok, err, ◌>>=◌}
use nest_js_ecomm_rd.Auth.{AuthUser}
use nest_js_ecomm_rd.Files.Store.{FileStatus, FileVisibility, pending, FileRecord, FilesOrm}
use nest_js_ecomm_rd.Files.Service.{
  PresignFileDto, CompleteUploadDto, create_presigned_upload, complete_upload, get_file_by_id,
}
use nest_js_ecomm_rd.Files.Storage.{
  S3Service, PresignArgs, build_public_url, presign_put_object, Head, HeadError, failed, code_of,
  is_404, object_exists,
}

-- The answer of `createPresignedUpload`.
pub record PresignedUpload : Type 0 where
  pub file_id : String
  pub key : String
  pub upload_url : String
  pub content_type : String
  pub public_url : String
  pub upload_method : String
  pub expires_in_sec : Number

pub record PublicView : Type 0 where
  pub id : String
  pub owner_id : String
  pub entity_id : Option String
  pub status : FileStatus
  pub visibility : FileVisibility
  pub content_type : String
  pub size : ℕ
  pub key : String
  pub created_at : ℕ
  pub updated_at : ℕ
  pub public_url : String

abbrev pub to_public_view : S3Service → FileRecord → PublicView
to_public_view s3 file = record {
  id = file.id;
  owner_id = file.owner_id;
  entity_id = file.entity_id;
  status = file.status;
  visibility = file.visibility;
  content_type = file.content_type;
  size = file.size;
  key = file.key;
  created_at = file.created_at;
  updated_at = file.updated_at;
  public_url = build_public_url s3 file.key;
}

abbrev pub presigned_upload :
    (String → PresignArgs → Number → String) → S3Service → FileRecord → PresignedUpload
presigned_upload sign s3 saved =
    let presigned = presign_put_object sign s3 (record {
      key = saved.key;
      content_type = saved.content_type;
      size_bytes = saved.size;
      expires_in_sec = none;
    }) in
    record {
      file_id = saved.id;
      key = saved.key;
      upload_url = presigned.upload_url;
      content_type = saved.content_type;
      public_url = build_public_url s3 saved.key;
      upload_method = "PUT";
      expires_in_sec = presigned.expires_in_sec;
    }

is_404-cases :
    (c : Option ℕ) → ((c ≡ some 404) × (is_404 c ≡ true)) ⊎ ((c ≢ some 404) × (is_404 c ≡ false))
is_404-cases none = inr (λ e. cc, refl)
is_404-cases (some n) = elim (Bool-cases (n == 404)) [
  | inl same ↦ inl (ground arith, same)
  | inr other ↦ inr (λ e. ground arith, other)
]

module _ {S : Type 0} (orm : FilesOrm S) (s3 : S3Service) where
  unfoldable pub presign :
      (String → PresignArgs → Number → String)
      → String
      → AuthUser
      → PresignFileDto
      → S
      → Result (PresignedUpload × S)
  presign sign uuid user dto s = create_presigned_upload orm uuid user dto s >>= λ (saved, s').
      ok (presigned_upload sign s3 saved, s')

  unfoldable pub complete :
      (String → Head) → CompleteUploadDto → AuthUser → S → Result (PublicView × S)
  complete head dto user s = complete_upload orm (object_exists head) dto user s >>= λ (saved, s').
      ok (to_public_view s3 saved, s')

  unfoldable pub by_id : String → AuthUser → S → Result PublicView
  by_id id user s = get_file_by_id orm id user s >>= λ file. ok (to_public_view s3 file)

  -- If the storage does not show the object of a pending upload, its owner cannot complete it: the answer is
  -- 400 if the storage has no such object, and the error of the storage otherwise.
  complete_storage_failure :
      (head : String → Head) (dto : CompleteUploadDto) (user : AuthUser) (s : S) (file : FileRecord)
      (e : HeadError)
      → orm.find_file dto.file_id s ≡ some file
      → file.owner_id ≡ user.sub
      → file.status ≡ pending
      → head file.key ≡ failed e
      → ((code_of e ≡ some 404)
          × (complete head dto user s ≡ err (bad_request "File object is missing in storage")))
        ⊎ ((code_of e ≢ some 404) × (complete head dto user s ≡ err (internal e.message)))
  unfolding complete complete_upload object_exists
  complete_storage_failure head dto user s file e stored own fresh missing =
      let mine = eq_iff file.owner_id user.sub in
      elim (is_404-cases (code_of e)) [
        | inl (gone, is) ↦ inl (gone, ground (arith, stored, own, mine, fresh, missing, is))
        | inr (other, is) ↦ inr (other, ground (arith, stored, own, mine, fresh, missing, is))
      ]
