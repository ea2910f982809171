-- ===== src/Documents/Access.antt =====
-- The reads of app/services/document_service.py: the status of a job, and its files.
use Prim.Native.String.{String}
use document_generation_anek.Prelude.{ℕ, Bool, Option, some, List, [], ◌∷◌, any}
use document_generation_anek.Text.{Text}
use document_generation_anek.Models.{
  DocumentJobStatus, ArtifactKind, docx, pdf, DocumentJob, DocumentArtifact,
}
use document_generation_anek.Result.{not_found}
use document_generation_anek.Jobs.{get_by_id}
use document_generation_anek.Artifacts.{list_by_job_id, get_preferred_for_job}
use document_generation_anek.Storage.{MinioClient, get_download_url}
use document_generation_anek.World.{Io, pure, session, transaction, or_raise, ◌>>=◌}

pub record DocumentArtifactResponse : Type 0 where
  pub id : ℕ
  pub kind : ArtifactKind
  pub file_name : Text
  pub content_type : String
  pub size_bytes : Option ℕ
  pub download_url : Text

pub record DocumentJobStatusResponse : Type 0 where
  pub task_id : ℕ
  pub organization_id : ℕ
  pub status : DocumentJobStatus
  pub template_id : ℕ
  pub template_version_id : ℕ
  pub requested_by_user_id : Option ℕ
  pub from_cache : Bool
  pub error_message : Option String
  pub started_at : Option ℕ
  pub completed_at : Option ℕ
  pub artifacts : List DocumentArtifactResponse

pub record DocumentArtifactAccessResponse : Type 0 where
  pub organization_id : ℕ
  pub task_id : ℕ
  pub artifact : DocumentArtifactResponse

unfoldable pub artifact_response : DocumentArtifact → Text → DocumentArtifactResponse
artifact_response a download_url = record {
  id = a.id;
  kind = a.kind;
  file_name = a.file_name;
  content_type = a.content_type;
  size_bytes = a.size_bytes;
  download_url = download_url;
}

unfoldable pub status_response :
    DocumentJob → List DocumentArtifact → List DocumentArtifactResponse → DocumentJobStatusResponse
status_response job rows artifacts = record {
  task_id = job.id;
  organization_id = job.organization_id;
  status = job.status;
  template_id = job.template_id;
  template_version_id = job.template_version_id;
  requested_by_user_id = job.requested_by_user_id;
  from_cache = any (λ a. a.is_cached) rows;
  error_message = job.error_message;
  started_at = job.started_at;
  completed_at = job.completed_at;
  artifacts = artifacts;
}

-- the kinds of `get_download_artifact` and `get_preview_artifact`
abbrev pub preferred_kinds : List ArtifactKind
preferred_kinds = pdf ∷ docx ∷ []

module _ {O : Type 0} (client : MinioClient O) where
  unfoldable pub artifact_responses : List DocumentArtifact → Io O (List DocumentArtifactResponse)
  unfolding artifact_response
  artifact_responses [] = pure []
  artifact_responses (a ∷ artifacts) = do
    url ← get_download_url client a.storage_key
    rest ← artifact_responses artifacts
    pure (artifact_response a url ∷ rest)

  -- DocumentService.get_job_status
  unfoldable pub get_job_status : ℕ → ℕ → Io O DocumentJobStatusResponse
  unfolding transaction artifact_responses status_response
  get_job_status organization_id job_id = transaction (do
    found ← session (get_by_id job_id (some organization_id))
    job ← or_raise found not_found
    rows ← session (list_by_job_id job.id)
    artifacts ← artifact_responses rows
    pure (status_response job rows artifacts))

  -- DocumentService._get_artifact_access
  unfoldable pub get_artifact_access :
      List ArtifactKind → ℕ → ℕ → Io O DocumentArtifactAccessResponse
  unfolding transaction artifact_response
  get_artifact_access kinds organization_id job_id = transaction (do
    found ← session (get_by_id job_id (some organization_id))
    job ← or_raise found not_found
    preferred ← session (get_preferred_for_job job.id kinds)
    artifact ← or_raise preferred not_found
    url ← get_download_url client artifact.storage_key
    pure (record {
      organization_id = job.organization_id;
      task_id = job.id;
      artifact = artifact_response artifact url;
    }))

  unfoldable pub get_download_artifact : ℕ → ℕ → Io O DocumentArtifactAccessResponse
  unfolding get_artifact_access
  get_download_artifact organization_id job_id =
      get_artifact_access preferred_kinds organization_id job_id

  unfoldable pub get_preview_artifact : ℕ → ℕ → Io O DocumentArtifactAccessResponse
  unfolding get_artifact_access
  get_preview_artifact organization_id job_id =
      get_artifact_access preferred_kinds organization_id job_id
