-- ===== src/Files/Storage.antt =====
-- src/files/s3.service.ts: `S3Service`. The client of AWS is not part of the repository: what `HeadObject`
-- answers and `getSignedUrl` are arguments. `get` reads a setting.
use nest_js_ecomm_rd.Base.{
  ℕ, String, Bool, true, false, Option, none, some, get_or, truthy, str_eq, ◌==◌, ◌&&◌,
  if◌then◌else◌, Number, decimal,
}
use nest_js_ecomm_rd.Errors.{internal, Result, ok, err, ◌>>=◌, or_throw}
use Prim.Native.String.{◌++◌ as concat}
use Prim.Native.Char.{code}

pub record Credentials : Type 0 where
  pub access_key_id : String
  pub secret_access_key : String

-- The service with its settings.
pub record S3Service : Type 0 where
  pub region : String
  pub bucket : String
  pub cloudfront_base_url : Option String
  pub default_expires_in_sec : Number
  pub credentials : Option Credentials

-- `input.replace(/\/+$/, '')`
abbrev pub strip_slashes : String → String
strip_slashes String.[] = ""
strip_slashes (String.◌∷◌ c s) =
    let rest = strip_slashes s in if code c == b'/' && str_eq rest "" then "" else String.◌∷◌ c rest

abbrev pub trim_trailing_slash : Option String → Option String
trim_trailing_slash none = none
trim_trailing_slash (some input) = some (if str_eq input "" then input else strip_slashes input)

abbrev or_else : Option String → Option String → Option String
or_else none other = other
or_else (some s) other = some s

-- `if (accessKeyId && secretAccessKey)`
abbrev pub credentials_of : Option String → Option String → Option Credentials
credentials_of none secret = none
credentials_of (some id) none = none
credentials_of (some id) (some secret) =
    some (record { access_key_id = id; secret_access_key = secret })

-- `Number(value ?? 900)`
abbrev pub expires_in : (String → Number) → Option String → Number
expires_in number none = decimal false 900 0
expires_in number (some s) = number s

-- The constructor.
unfoldable pub s3_service : (String → Number) → (String → Option String) → Result S3Service
s3_service number get =
    or_throw (get "AWS_S3_BUCKET") (internal "Configuration key \"AWS_S3_BUCKET\" does not exist")
    >>= λ bucket. ok (record {
      region = get_or (get "AWS_REGION") "eu-central-1";
      bucket = bucket;
      cloudfront_base_url =
          trim_trailing_slash (or_else (get "CLOUDFRONT_BASE_URL") (get "AWS_CLOUDFRONT_URL"));
      default_expires_in_sec = expires_in number (get "FILES_PRESIGN_EXPIRES_IN_SEC");
      credentials =
          credentials_of (truthy (get "AWS_ACCESS_KEY_ID")) (truthy (get "AWS_SECRET_ACCESS_KEY"));
    })

-- What `HeadObject` throws.
pub record HeadError : Type 0 where
  pub metadata_code : Option ℕ
  pub status_code : Option ℕ
  pub message : String

pub data Head : Type 0 where
  found : Head
  failed : HeadError → Head

-- `error?.$metadata?.httpStatusCode ?? error?.statusCode`
abbrev pub code_of : HeadError → Option ℕ
code_of error = elim error.metadata_code [ none ↦ error.status_code | some n ↦ some n ]

abbrev pub is_404 : Option ℕ → Bool
is_404 none = false
is_404 (some n) = n == 404

-- `objectExists`, on what `HeadObject` answers for each key.
unfoldable pub object_exists : (String → Head) → String → Result Bool
object_exists head key = elim (head key) [
  | found ↦ ok true
  | failed error ↦ if is_404 (code_of error) then ok false else err (internal error.message)
]

unfoldable pub build_public_url : S3Service → String → String
build_public_url s3 key = elim (truthy s3.cloudfront_base_url) [
  | some base ↦ concat base (concat "/" key)
  | none ↦
      concat "https://"
        (concat s3.bucket (concat ".s3." (concat s3.region (concat ".amazonaws.com/" key))))
]

pub record PresignArgs : Type 0 where
  pub key : String
  pub content_type : String
  pub size_bytes : ℕ
  pub expires_in_sec : Option Number

pub record Presigned : Type 0 where
  pub upload_url : String
  pub expires_in_sec : Number

-- `sign` is `getSignedUrl`, for the bucket, the arguments and the time.
abbrev pub presign_put_object :
    (String → PresignArgs → Number → String) → S3Service → PresignArgs → Presigned
presign_put_object sign s3 args =
    let expires = get_or args.expires_in_sec s3.default_expires_in_sec in
    record { upload_url = sign s3.bucket args expires; expires_in_sec = expires }
