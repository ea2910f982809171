-- ===== src/Operations/Replay.antt =====
-- `replay_job` of app/services/operations_service.py: a job's stored request is sent once more.
use document_generation_anek.Prelude.{ℕ, Option, none, some, false}
use document_generation_anek.Json.{Value, Dict}
use document_generation_anek.Constructor.{DocumentConstructor}
use document_generation_anek.Models.{
  DocumentJob, JobInput, constructor_input, import_input, document_job_replayed,
}
use document_generation_anek.Result.{not_found, validation}
use document_generation_anek.Audit.{log_event}
use document_generation_anek.Jobs.{get_by_id}
use document_generation_anek.World.{Io, pure, session, transaction, or_raise, ◌>>=◌, ◌>>◌}
use document_generation_anek.Documents.Services.{Services}
use document_generation_anek.Documents.Creation.{JobRequest, DocumentJobResponse, create_job}

-- a validated DocumentJobCreateRequest
pub record CreateRequest : Type 0 where
  pub request : JobRequest
  pub constructor : DocumentConstructor

unfoldable pub request_of :
    DocumentJob → ℕ → Option ℕ → DocumentConstructor → Dict Value → CreateRequest
request_of job user_id version constructor values = record {
  request = record {
    organization_id = job.organization_id;
    template_id = job.template_id;
    template_version_id = version;
    values = values;
    current_user_id = some user_id;
    require_published_template = false;
  };
  constructor = constructor;
}

-- `DocumentJobCreateRequest.model_validate(source_job.input_payload)`: the field `constructor` is required, and the stored
-- request of an imported document does not have it
abbrev pub as_create_request : DocumentJob → ℕ → JobInput → Option CreateRequest
as_create_request job user_id (constructor_input version constructor values) =
    some (request_of job user_id version constructor values)
as_create_request job user_id (import_input values) = none

module _ {O : Type 0} (s : Services O) where
  unfoldable pub replay_request : ℕ → ℕ → ℕ → Io O CreateRequest
  unfolding transaction
  replay_request organization_id job_id current_user_id = transaction (do
    found ← session (get_by_id job_id (some organization_id))
    source_job ← or_raise found not_found
    or_raise (as_create_request source_job current_user_id source_job.input_payload) validation)

  -- OperationsService.replay_job
  unfoldable pub replay_job : ℕ → ℕ → ℕ → Io O DocumentJobResponse
  unfolding transaction replay_request
  replay_job organization_id job_id current_user_id = do
    payload ← replay_request organization_id job_id current_user_id
    response ← create_job s payload.request payload.constructor
    transaction (
        session (
          log_event organization_id (some current_user_id) document_job_replayed
            (some response.task_id)))
    pure response
