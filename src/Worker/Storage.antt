-- ===== src/Worker/Storage.antt =====
-- `_read_object_bytes_from_storage` of services/worker/src/tkp_worker/main.py. The backends
-- themselves (the file system, the packages minio and oss2) are a parameter.
use tkp_platform.Base.{Bool, true, not, ◌&&◌, ◌||◌, Option, none, some, ◌++◌, if◌then◌else◌}
use tkp_platform.Base.Result.{Result, ok, err, ◌>>◌, raise_if}
use tkp_platform.Base.Text.{Text, codes, starts_with}
use tkp_platform.Chunker.Split.{is_empty}

pub data Backend : Type 0 where
  local minio oss : Backend
  other : Text → Backend

-- The settings that are handed to the function.
pub record StorageSettings : Type 0 where
  pub backend : Backend
  pub storage_root : Text
  pub bucket_name : Text
  pub endpoint : Option Text
  pub access_key : Option Text
  pub secret_key : Option Text
  pub secure : Bool

-- What stands behind each backend: a file's bytes, if it exists; and a client's `get_object`, which
-- is given the endpoint, the bucket and the key, and may raise. Bytes are a list of numbers.
pub record ObjectStore : Type 0 where
  pub read_file : Text → Text → Option Text
  pub minio_object : Text → Text → Text → Result Text Text
  pub oss_object : Text → Text → Text → Result Text Text

-- `not s`
abbrev pub is_unset : Option Text → Bool
is_unset none = true
is_unset (some t) = is_empty t

abbrev pub text_or_empty : Option Text → Text
text_or_empty none = codes ""
text_or_empty (some t) = t

-- The scheme that the OSS endpoint gets, if it has none.
unfoldable pub endpoint_url : Bool → Text → Text
endpoint_url secure url =
    if not (starts_with (codes "http://") url) && not (starts_with (codes "https://") url)
    then (if secure then codes "https://" ++ url else codes "http://" ++ url)
    else url

abbrev pub lacks_credentials : StorageSettings → Bool
lacks_credentials s = is_unset s.endpoint || is_unset s.access_key || is_unset s.secret_key

-- The error is the exception's text.
unfoldable pub read_object_bytes :
    ObjectStore → StorageSettings → (Text → Text → Text) → Text → Result Text Text
unfolding endpoint_url
read_object_bytes store s join_path key = elim s.backend [
  | local ↦ elim (store.read_file s.storage_root key) [
    | none ↦ err (codes "object not found: " ++ join_path s.storage_root key)
    | some bytes ↦ ok bytes
  ]
  | minio ↦
      raise_if (lacks_credentials s) (codes "minio backend requires endpoint/access_key/secret_key")
      >> store.minio_object (text_or_empty s.endpoint) s.bucket_name key
  | oss ↦
      raise_if (lacks_credentials s) (codes "oss backend requires endpoint/access_key/secret_key")
      >> store.oss_object (endpoint_url s.secure (text_or_empty s.endpoint)) s.bucket_name key
  | other name ↦ err (codes "unsupported storage backend: " ++ name)
]
