-- ===== src/Documents/Stored.antt =====
-- app/services/generation/artifact_service.py: generated files are put into the object storage, recorded, logged, and counted.
use Prim.Native.String.{String}
use document_generation_anek.Prelude.{
  ℕ, suc, ◌+◌, true, false, Option, none, some, List, [], ◌∷◌, ◌++◌, length, ◌==◌, if◌then◌else◌,
}
use document_generation_anek.Prelude.Int.{pos}
use document_generation_anek.Text.{Text, codes}
use document_generation_anek.Models.{ArtifactKind, docx, pdf, DocumentArtifact, artifact_created}
use document_generation_anek.Database.{Tx}
use document_generation_anek.Audit.{log_event}
use document_generation_anek.Artifacts.{create_artifact}
use document_generation_anek.Billing.Limits.{record_storage_usage}
use document_generation_anek.Storage.{
  Bytes, StorageObject, upload_generated_artifact, download_bytes,
}
use document_generation_anek.World.{Io, pure, session, ◌>>=◌, ◌>>◌}
use document_generation_anek.Documents.Resolver.{ResolvedTemplateContext}
use document_generation_anek.Documents.Services.{Services}

-- `make` is the row without its primary key
unfoldable pub insert_artifact : (ℕ → DocumentArtifact) → Tx DocumentArtifact
insert_artifact make db = create_artifact (make db.next_id) (record db { next_id = suc db.next_id })

-- `int(stored.size_bytes or len(content))`
abbrev pub size_or : ℕ → ℕ → ℕ
size_or size n = if size == 0 then n else size

abbrev pub or_now : Option String → String → Option String
or_now none s = some s
or_now (some t) s = some t

abbrev pub or_later : Option ℕ → ℕ → Option ℕ
or_later none t = some t
or_later (some u) t = some u

module _ {O : Type 0} (s : Services O) where
  -- f"{context.template_code}-{context.template_version}" with an extension
  abbrev pub artifact_name : ResolvedTemplateContext → Text → Text
  artifact_name context extension =
      context.template_code ++ (b'-' ∷ (context.template_version ++ extension))

  unfoldable pub artifact_expiration : ℕ
  artifact_expiration = s.now + s.artifact_retention

  unfoldable pub generated_row :
      ResolvedTemplateContext
      → ℕ
      → ArtifactKind
      → Text
      → StorageObject
      → String
      → ℕ
      → DocumentArtifact
  unfolding artifact_expiration
  generated_row context job_id kind file_name stored checksum id = record {
    id = id;
    organization_id = context.organization_id;
    document_job_id = some job_id;
    template_version_id = context.template_version_id;
    kind = kind;
    file_name = file_name;
    content_type = stored.content_type;
    storage_key = stored.key;
    checksum = some checksum;
    size_bytes = some stored.size_bytes;
    is_cached = false;
    expires_at = some artifact_expiration;
  }

  -- what follows an upload: the row, the audit event, and the metering
  unfoldable pub record_artifact : ℕ → Option ℕ → ℕ → (ℕ → DocumentArtifact) → Io O DocumentArtifact
  unfolding insert_artifact
  record_artifact organization_id user_id size make = do
    artifact ← session (insert_artifact make)
    session (log_event artifact.organization_id user_id artifact_created (some artifact.id))
    session (record_storage_usage s.clock organization_id (pos size))
    pure artifact

  -- `store_docx` and `store_pdf` differ in the kind, the extension and the content type
  unfoldable pub store_generated :
      ArtifactKind
      → Text
      → String
      → ResolvedTemplateContext
      → ℕ
      → Option ℕ
      → Bytes
      → Io O DocumentArtifact
  unfolding record_artifact generated_row
  store_generated kind extension content_type context job_id user_id content = do
    stored ←
        upload_generated_artifact s.client s.storage_settings context.organization_code
          (s.uuid_text job_id) (artifact_name context extension) content content_type
    record_artifact context.organization_id user_id (size_or stored.size_bytes (length content)) (
        generated_row context job_id kind (artifact_name context extension) stored
          (s.sha256 content))

  unfoldable pub store_docx : ResolvedTemplateContext → ℕ → Option ℕ → Bytes → Io O DocumentArtifact
  unfolding store_generated
  store_docx =
      store_generated docx (codes ".docx")
        "application/vnd.openxmlformats-officedocument.wordprocessingml.document"

  unfoldable pub store_pdf : ResolvedTemplateContext → ℕ → Option ℕ → Bytes → Io O DocumentArtifact
  unfolding store_generated
  store_pdf = store_generated pdf (codes ".pdf") "application/pdf"

  unfoldable pub cached_row : DocumentArtifact → ℕ → StorageObject → String → ℕ → DocumentArtifact
  unfolding artifact_expiration
  cached_row a job_id stored checksum id = record a {
    id = id;
    document_job_id = some job_id;
    storage_key = stored.key;
    checksum = or_now a.checksum checksum;
    size_bytes = some stored.size_bytes;
    is_cached = true;
    expires_at = or_later a.expires_at artifact_expiration;
  }

  unfoldable pub reuse_one : Text → ℕ → Option ℕ → DocumentArtifact → Io O DocumentArtifact
  unfolding record_artifact cached_row
  reuse_one organization_code job_id user_id a = do
    content ← download_bytes s.client a.storage_key
    stored ←
        upload_generated_artifact s.client s.storage_settings organization_code (s.uuid_text job_id)
          a.file_name content a.content_type
    record_artifact a.organization_id user_id (size_or stored.size_bytes (length content))
        (cached_row a job_id stored (s.sha256 content))

  unfoldable pub reuse_cached_artifacts :
      Text → ℕ → Option ℕ → List DocumentArtifact → Io O (List DocumentArtifact)
  unfolding reuse_one
  reuse_cached_artifacts organization_code job_id user_id [] = pure []
  reuse_cached_artifacts organization_code job_id user_id (a ∷ artifacts) = do
    cloned ← reuse_one organization_code job_id user_id a
    rest ← reuse_cached_artifacts organization_code job_id user_id artifacts
    pure (cloned ∷ rest)
