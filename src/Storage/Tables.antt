-- ===== src/Storage/Tables.antt =====
-- No call of the storage service writes to the tables.
use Prim.Native.String.{String}
use document_generation_anek.Prelude.{
  refl, Bool, true, false, not, Bool-cases, inl, inr, length, if◌then◌else◌,
}
use document_generation_anek.Text.{Text}
use document_generation_anek.Result.{storage}
use document_generation_anek.StorageKeys.{artifact_key}
use document_generation_anek.Storage.{
  Bytes, MinioClient, StorageSettings, StorageObject, storage_error, wrapped, ensure_bucket,
  put_object, upload_generated_artifact, download_bytes,
}
use document_generation_anek.World.{Io, pure, raise, lift, raise_if, storing, ◌>>=◌, ◌>>◌}
use document_generation_anek.World.Keeps.{KeepsDb, >>=-KeepsDb, storing-KeepsDb, catch-KeepsDb}

module _ {O : Type 0} (client : MinioClient O) where
  wrapped-KeepsDb : {A : Type 0} (m : Io O A) → KeepsDb m → KeepsDb (wrapped m)
  wrapped-KeepsDb m h = catch-KeepsDb m (λ e. raise (storage_error e)) h (λ e w. refl)

  pub download_bytes-KeepsDb : (key : Text) → KeepsDb (download_bytes client key)
  unfolding download_bytes
  download_bytes-KeepsDb key =
      wrapped-KeepsDb (storing (client.get_object key)) (storing-KeepsDb (client.get_object key))

  module _ (settings : StorageSettings) where
    make_unless : Bool → Io O (Unit {0})
    make_unless exists =
        if exists
        then pure tt
        else (do raise_if (not settings.auto_create_bucket) storage; storing client.make_bucket)

    made : (b : Bool) → KeepsDb (make_unless b)
    unfolding make_unless
    made true w = refl
    made false w = elim (Bool-cases settings.auto_create_bucket) [
      | inl e ↦ rw e (storing-KeepsDb client.make_bucket w)
      | inr e ↦ rw e refl
    ]

    ensure_bucket-KeepsDb : KeepsDb (ensure_bucket client settings)
    unfolding ensure_bucket make_unless
    ensure_bucket-KeepsDb = wrapped-KeepsDb (storing client.bucket_exists >>= make_unless) (
        >>=-KeepsDb (storing client.bucket_exists) make_unless
          (storing-KeepsDb client.bucket_exists) made)

    put_object-KeepsDb :
        (key : Text) (c : Bytes) (t : String) → KeepsDb (put_object client settings key c t)
    unfolding put_object
    put_object-KeepsDb key c t =
        >>=-KeepsDb {B = StorageObject} (ensure_bucket client settings) _ ensure_bucket-KeepsDb λ _.
          >>=-KeepsDb {B = StorageObject} (wrapped (storing (client.put_object key c t)))
            (λ _. pure (record { key = key; content_type = t; size_bytes = length c }))
            (wrapped-KeepsDb (storing (client.put_object key c t))
              (storing-KeepsDb (client.put_object key c t)))
            λ _ w. refl

    pub upload_generated_artifact-KeepsDb :
        (o j n : Text) (c : Bytes) (t : String)
        → KeepsDb (upload_generated_artifact client settings o j n c t)
    unfolding upload_generated_artifact
    upload_generated_artifact-KeepsDb o j n c t =
        >>=-KeepsDb {B = StorageObject} (lift (artifact_key settings.artifacts_prefix o j n)) _
          (λ w. refl) λ key. put_object-KeepsDb key c t
