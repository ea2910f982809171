-- ===== src/Storage.antt =====
-- app/services/storage/minio.py: the storage service, over the client of the object store, which is a parameter. A call of
-- the client may raise, and what it did to the store stays.
pub mod Laws
pub mod Tables
use Prim.Native.String.{String}
use document_generation_anek.Prelude.{ℕ, Bool, true, false, not, List, length, if◌then◌else◌}
use document_generation_anek.Text.{Text}
use document_generation_anek.Result.{Error, Result, ok, err, storage, s3_error}
use document_generation_anek.StorageKeys.{template_key, artifact_key, preview_key, cache_key}
use document_generation_anek.World.{Io, pure, raise, lift, storing, catch, raise_if, ◌>>=◌, ◌>>◌}

abbrev pub Bytes : Type 0
Bytes = List ℕ

-- minio.Minio on one bucket: the object's key, and for an upload its bytes and content type
pub record MinioClient (O : Type 0) : Type 0 where
  pub bucket_exists : O → Result Bool × O
  pub make_bucket : O → Result (Unit {0}) × O
  pub put_object : Text → Bytes → String → O → Result (Unit {0}) × O
  pub get_object : Text → O → Result Bytes × O
  pub remove_object : Text → O → Result (Unit {0}) × O
  pub presigned_get_object : Text → O → Result Text × O

pub record StorageSettings : Type 0 where
  pub templates_prefix : Text
  pub artifacts_prefix : Text
  pub previews_prefix : Text
  pub cache_prefix : Text
  pub auto_create_bucket : Bool

-- the metadata that callers read
pub record StorageObject : Type 0 where
  pub key : Text
  pub content_type : String
  pub size_bytes : ℕ

-- `except S3Error as error: raise StorageError(...)`
abbrev pub storage_error : Error → Error
storage_error s3_error = storage
storage_error e = e

abbrev pub wrapped : {O A : Type 0} → Io O A → Io O A
wrapped body = catch body (λ e. raise (storage_error e))

module _ {O : Type 0} (client : MinioClient O) (settings : StorageSettings) where
  unfoldable pub ensure_bucket : Io O (Unit {0})
  ensure_bucket = wrapped (do
    exists ← storing client.bucket_exists
    if exists
        then pure tt
        else (do raise_if (not settings.auto_create_bucket) storage; storing client.make_bucket))

  unfoldable pub put_object : Text → Bytes → String → Io O StorageObject
  unfolding ensure_bucket
  put_object key content content_type = do
    ensure_bucket
    wrapped (storing (client.put_object key content content_type))
    pure (record { key = key; content_type = content_type; size_bytes = length content })

  unfoldable pub upload_template : Text → Text → Text → Text → Bytes → String → Io O StorageObject
  unfolding put_object
  upload_template organization_code template_code version file_name content content_type = do
    key ←
        lift
          (template_key settings.templates_prefix organization_code template_code version file_name)
    put_object key content content_type

  unfoldable pub upload_generated_artifact :
      Text → Text → Text → Bytes → String → Io O StorageObject
  unfolding put_object
  upload_generated_artifact organization_code job_id artifact_name content content_type = do
    key ← lift (artifact_key settings.artifacts_prefix organization_code job_id artifact_name)
    put_object key content content_type

  unfoldable pub upload_preview : Text → Text → Text → Bytes → String → Io O StorageObject
  unfolding put_object
  upload_preview organization_code job_id preview_name content content_type = do
    key ← lift (preview_key settings.previews_prefix organization_code job_id preview_name)
    put_object key content content_type

  unfoldable pub upload_cached_artifact : Text → Text → Text → Bytes → String → Io O StorageObject
  unfolding put_object
  upload_cached_artifact organization_code key artifact_name content content_type = do
    k ← lift (cache_key settings.cache_prefix organization_code key artifact_name)
    put_object k content content_type

module _ {O : Type 0} (client : MinioClient O) where
  unfoldable pub download_bytes : Text → Io O Bytes
  download_bytes key = wrapped (storing (client.get_object key))

  unfoldable pub get_download_url : Text → Io O Text
  get_download_url key = wrapped (storing (client.presigned_get_object key))

  unfoldable pub delete_object : Text → Io O (Unit {0})
  delete_object key = wrapped (storing (client.remove_object key))
