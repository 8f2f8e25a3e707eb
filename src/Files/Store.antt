-- ===== src/Files/Store.antt =====
-- The tables that the files need, with the operations of TypeORM on them as a parameter, like `Orm`. Each
-- write is committed at once: the service uses no transaction.
use nest_js_ecomm_rd.Base.{ℕ, String, ◌≡◌, Option, List, ◌∷◌, Bool}
use nest_js_ecomm_rd.Errors.{Result, ok}
use nest_js_ecomm_rd.Database.{find_by}

pub data FileStatus : Type 0 where
  pending ready : FileStatus

pub data FileVisibility : Type 0 where
  private public : FileVisibility

pub record FileRecord : Type 0 where
  pub id : String
  pub owner_id : String
  pub entity_id : Option String
  pub key : String
  pub content_type : String
  pub size : ℕ
  pub status : FileStatus
  pub visibility : FileVisibility
  pub created_at : ℕ
  pub updated_at : ℕ

abbrev pub file_id : FileRecord → String
file_id file = file.id

-- The columns that `create` is given.
pub record NewFile : Type 0 where
  pub owner_id : String
  pub entity_id : Option String
  pub key : String
  pub content_type : String
  pub size : ℕ
  pub status : FileStatus
  pub visibility : FileVisibility

pub record IsSavedFile (n : NewFile) (file : FileRecord) : Type 0 where
  pub owner_id : file.owner_id ≡ n.owner_id
  pub key : file.key ≡ n.key
  pub content_type : file.content_type ≡ n.content_type
  pub size : file.size ≡ n.size
  pub status : file.status ≡ n.status

-- `S` is the database.
pub record FilesOrm (S : Type 0) : Type 0 where
  pub files : S → List FileRecord
  pub find_file : String → S → Option FileRecord
  pub product_exists : String → S → Bool
  pub insert_file : NewFile → S → Result (FileRecord × S)
  pub save_file : FileRecord → S → Result (FileRecord × S)
  -- `update(…)`, which gives the number of rows that it has changed.
  pub update_avatar : (user_id file_id : String) → S → Result (ℕ × S)
  pub update_image : (product_id file_id : String) → S → Result (ℕ × S)
  pub find_file_lem : (id : String) (s : S) → find_file id s ≡ find_by file_id id (files s)
  pub insert_file_lem :
      (n : NewFile) (s : S) (file : FileRecord) (s' : S)
      → insert_file n s ≡ ok (file, s')
      → IsSavedFile n file × (files s' ≡ file ∷ files s)
