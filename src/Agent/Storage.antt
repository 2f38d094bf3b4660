-- ===== src/Agent/Storage.antt =====
-- pkg/agent/s3.go: how CRIU is told about the object storage, and the keys of the objects. The transfers
-- themselves are calls of the AWS SDK.
pub mod Chain
use criu_migration_operator.Base.{
  String, Bool, true, false, not, ◌&&◌, ◌||◌, List, [], ◌∷◌, ◌++◌, str_eq, keep, join, ◌≡◌, refl,
  ◌<>◌, if◌then◌else◌,
}
use criu_migration_operator.Base.Splitting.{split_on, trim_suffix, trim_prefix, has_prefix}

pub record StorageClient : Type 0 where
  pub bucket : String
  pub endpoint : String
  pub download_endpoint : String
  pub region : String
  pub storage_type : String
  pub express_one_zone : Bool

-- getEndpoint
unfoldable pub get_endpoint : StorageClient → String
get_endpoint c = if str_eq c.endpoint "" then "s3." <> c.region <> ".amazonaws.com" else c.endpoint

-- getDownloadEndpoint
unfoldable pub get_download_endpoint : StorageClient → String
unfolding get_endpoint
get_download_endpoint c =
    if str_eq c.download_endpoint "" then get_endpoint c else c.download_endpoint

-- isMinIO
unfoldable pub is_minio : StorageClient → Bool
is_minio c = str_eq c.storage_type "minio"

-- A download endpoint of its own is a CDN.
unfoldable pub is_cloud_front : StorageClient → Bool
is_cloud_front c =
    not (str_eq c.download_endpoint "") && not (str_eq c.download_endpoint c.endpoint)

-- needsBucketOption
unfoldable pub needs_bucket_option : StorageClient → Bool
unfolding is_minio is_cloud_front
needs_bucket_option c = if is_minio c then false else if is_cloud_front c then false else true

-- getCRIUObjectPrefix
unfoldable pub object_prefix : String → String
object_prefix s3_prefix = s3_prefix <> "/"

abbrev flag : Bool → List String → List String
flag on words = if on then words else []

module _ (getenv : String → String) (c : StorageClient) where
  -- needsCRIUCredentials
  unfoldable pub needs_criu_credentials : Bool
  needs_criu_credentials = not (str_eq (getenv "AWS_ACCESS_KEY_ID") "") || c.express_one_zone

  -- The end of both lists of arguments.
  unfoldable pub credential_args : List String
  unfolding needs_criu_credentials
  credential_args =
      let access = getenv "AWS_ACCESS_KEY_ID" in
      let secret = getenv "AWS_SECRET_ACCESS_KEY" in
      flag needs_criu_credentials (
        flag (not (str_eq access "") && not (str_eq secret "")) (
          "--aws-access-key" ∷ access ∷ "--aws-secret-key" ∷ secret ∷ "--aws-region" ∷ c.region
          ∷ [])
        ++ flag c.express_one_zone ("--express-one-zone" ∷ []))

  unfoldable pub prefix_args : String → List String
  unfolding object_prefix
  prefix_args s3_prefix =
      flag (not (str_eq s3_prefix ""))
        ("--object-storage-object-prefix" ∷ object_prefix s3_prefix ∷ [])

  -- BuildCRIUObjectStorageArgs
  unfoldable pub object_storage_args : String → List String
  unfolding credential_args prefix_args get_download_endpoint is_cloud_front is_minio
  object_storage_args s3_prefix =
      ("--enable-object-storage" ∷ "--object-storage-endpoint-url" ∷ get_download_endpoint c ∷ [])
      ++ (flag (not (is_cloud_front c)) ("--object-storage-bucket" ∷ c.bucket ∷ [])
          ++ (prefix_args s3_prefix
              ++ (flag (is_minio c) ("--object-storage-path-style" ∷ []) ++ credential_args)))

  -- BuildCRIUUploadArgs
  unfoldable pub upload_args : String → List String
  unfolding credential_args prefix_args get_endpoint is_minio
  upload_args s3_prefix =
      ("--object-storage-upload"
        ∷ "--object-storage-endpoint-url"
        ∷ get_endpoint c
        ∷ "--object-storage-bucket"
        ∷ c.bucket
        ∷ [])
      ++ (prefix_args s3_prefix
          ++ (flag (is_minio c) ("--object-storage-path-style" ∷ []) ++ credential_args))

-- All but the last part.
abbrev pub but_last : List String → List String
but_last [] = []
but_last (s ∷ []) = []
but_last (s ∷ t ∷ rest) = s ∷ but_last (t ∷ rest)

abbrev pub with_slash : String → String
with_slash base = if str_eq base "" then base else trim_suffix base "/" <> "/"

-- The prefix of the whole chain of a checkpoint: its own prefix without the last part.
unfoldable pub chain_base : String → String
chain_base s3_prefix = with_slash (join "/" (but_last (split_on 47 (trim_suffix s3_prefix "/"))))

abbrev last_of : String → List String → String
last_of s [] = s
last_of s (t ∷ rest) = last_of t rest

-- The name of a key's file, filepath.Base, where the key does not end in a slash.
unfoldable pub file_name : String → String
file_name key = last_of "" (split_on 47 key)

-- A file that the source's page server or the storage serves later, page by page.
unfoldable pub is_pages_file : String → Bool
unfolding file_name
is_pages_file key = has_prefix (file_name key) "pages-"

-- The objects that DownloadMetadataOnly fetches of those that are listed.
unfoldable pub metadata_keys : List String → List String
unfolding is_pages_file
metadata_keys keys = keep (λ key. not (is_pages_file key)) keys

-- The local path of an object, below the working directory.
unfoldable pub local_name : (s3_prefix key : String) → String
local_name s3_prefix key = trim_prefix (trim_prefix key s3_prefix) "/"
