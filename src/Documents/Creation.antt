-- ===== src/Documents/Creation.antt =====
-- `create_job` and `create_imported_job` of app/services/document_service.py, and the dispatch to the queue
-- (app/services/job_queue_service.py). An imported job is stored with its values under the mode "docx_import".
use Prim.Native.String.{String}
use package.text.Mathlib.Text.{◌==◌ as str_eq}
use document_generation_anek.Prelude.{
  ℕ, suc, ◌+◌, Bool, true, false, not, Option, none, some, List, [], ◌∷◌, map, ◌==◌,
}
use document_generation_anek.Text.{Text}
use document_generation_anek.Json.{Value, Dict, of_option}
use document_generation_anek.Constructor.{DocumentConstructor, DocumentBlock}
use document_generation_anek.Models.{
  DocumentJobStatus, queued, JobInput, constructor_input, import_input, DocumentJob,
  DocumentArtifact, document_job_created, document_job_completed,
}
use document_generation_anek.Result.{validation}
use document_generation_anek.Database.{Tx}
use document_generation_anek.Audit.{log_event}
use document_generation_anek.Jobs.{
  create, find_completed_cache_hit, mark_processing, mark_completed,
}
use document_generation_anek.Artifacts.{list_reusable_by_job_id}
use document_generation_anek.Billing.Limits.{
  enforce_generation_allowed, enforce_storage_delta_allowed, record_generation_request,
}
use document_generation_anek.Rendering.Payload.{prepare_payload}
use document_generation_anek.World.{
  Io, pure, lift, raise_if, session, storing, transaction, ◌>>=◌, ◌>>◌,
}
use document_generation_anek.Documents.Resolver.{ResolvedTemplateContext, resolve}
use document_generation_anek.Documents.Mapper.{map_document}
use document_generation_anek.Documents.Services.{Services}
use document_generation_anek.Documents.Stored.{reuse_cached_artifacts}

-- DocumentJobCreateRequest and ImportedTemplateDocumentJobCreateRequest, less the constructor, with the caller's identity
pub record JobRequest : Type 0 where
  pub organization_id : ℕ
  pub template_id : ℕ
  pub template_version_id : Option ℕ
  pub values : Dict Value
  pub current_user_id : Option ℕ
  pub require_published_template : Bool

pub record DocumentJobResponse : Type 0 where
  pub task_id : ℕ
  pub organization_id : ℕ
  pub status : DocumentJobStatus
  pub template_id : ℕ
  pub template_version_id : ℕ
  pub requested_by_user_id : Option ℕ
  pub from_cache : Bool

-- a job that is to be created
pub record NewJob : Type 0 where
  pub context : ResolvedTemplateContext
  pub blocks : List DocumentBlock
  pub input_payload : JobInput
  pub normalized_payload : Dict Value
  pub cache_key : String

unfoldable pub job_row : NewJob → Option ℕ → ℕ → DocumentJob
job_row n user_id id = record {
  id = id;
  organization_id = n.context.organization_id;
  template_id = n.context.template_id;
  template_version_id = n.context.template_version_id;
  requested_by_user_id = user_id;
  status = queued;
  input_payload = n.input_payload;
  normalized_payload = some n.normalized_payload;
  cache_key = some n.cache_key;
  error_message = none;
  started_at = none;
  completed_at = none;
}

unfoldable pub insert_job : (ℕ → DocumentJob) → Tx DocumentJob
insert_job make db = create (make db.next_id) (record db { next_id = suc db.next_id })

-- `sum(int(artifact.size_bytes or 0) ...)`
abbrev pub bytes_of : Option ℕ → ℕ
bytes_of none = 0
bytes_of (some n) = n

abbrev pub total_bytes : List DocumentArtifact → ℕ
total_bytes [] = 0
total_bytes (a ∷ artifacts) = bytes_of a.size_bytes + total_bytes artifacts

-- the values of an imported template, as the payload column holds them
abbrev pub as_values : Dict (Option Text) → Dict Value
as_values normalized = map (λ e. (e.0, of_option e.1)) normalized

unfoldable pub job_response : DocumentJob → Option ℕ → Bool → DocumentJobResponse
job_response job user_id from_cache = record {
  task_id = job.id;
  organization_id = job.organization_id;
  status = job.status;
  template_id = job.template_id;
  template_version_id = job.template_version_id;
  requested_by_user_id = user_id;
  from_cache = from_cache;
}

module _ {O : Type 0} (s : Services O) where
  -- the files of the job that is reused, and the job completed with copies of them
  unfoldable pub complete_from_cache :
      NewJob → Option ℕ → DocumentJob → List DocumentArtifact → Io O (DocumentJob × Bool)
  complete_from_cache n user_id job [] = pure (job, false)
  complete_from_cache n user_id job (a ∷ artifacts) = do
    session
        (enforce_storage_delta_allowed s.clock job.organization_id (total_bytes (a ∷ artifacts)))
    reuse_cached_artifacts s n.context.organization_code job.id user_id (a ∷ artifacts)
    processing_job ← session (mark_processing n.normalized_payload n.cache_key s.now job)
    completed_job ← session (mark_completed s.now processing_job)
    session (log_event job.organization_id user_id document_job_completed (some job.id))
    pure (completed_job, true)

  abbrev pub reuse_unless :
      Bool → NewJob → Option ℕ → DocumentJob → DocumentJob → Io O (DocumentJob × Bool)
  reuse_unless true n user_id job cached_job = pure (job, false)
  reuse_unless false n user_id job cached_job = do
    artifacts ← session (list_reusable_by_job_id s.now cached_job.id)
    complete_from_cache n user_id job artifacts

  abbrev pub reuse :
      NewJob → Option ℕ → DocumentJob → Option DocumentJob → Io O (DocumentJob × Bool)
  reuse n user_id job none = pure (job, false)
  reuse n user_id job (some cached_job) =
      reuse_unless (cached_job.id == job.id) n user_id job cached_job

  -- the new job, and whether it is completed from the cache
  unfoldable pub record_job : NewJob → Option ℕ → Io O (DocumentJob × Bool)
  unfolding insert_job complete_from_cache
  record_job n user_id = do
    job ← session (insert_job (job_row n user_id))
    session (record_generation_request s.clock job.organization_id n.blocks)
    session (log_event job.organization_id user_id document_job_created (some job.id))
    cached_job ← session (
        find_completed_cache_hit n.context.organization_id n.context.template_version_id
          n.cache_key)
    reuse n user_id job cached_job

  -- JobQueueService.enqueue_generation_job
  unfoldable pub enqueue_generation_job : ℕ → Io O (Unit {0})
  enqueue_generation_job job_id = storing (s.send job_id)

  -- behind the transaction: a job that is not completed is sent to the workers
  abbrev pub dispatch : Option ℕ → DocumentJob × Bool → Io O DocumentJobResponse
  dispatch user_id (job, true) = pure (job_response job user_id true)
  dispatch user_id (job, false) = do
    enqueue_generation_job job.id
    pure (job_response job user_id false)

  unfoldable pub new_job : JobRequest → DocumentConstructor → Io O NewJob
  new_job r constructor = do
    context ←
        session (
          resolve r.organization_id r.template_id r.template_version_id
            r.require_published_template)
    raise_if (str_eq context.render_strategy "docx_import") validation
    session (enforce_generation_allowed s.clock r.organization_id constructor.blocks)
    mapped ← lift (
        map_document s.digest s.max_image_size_bytes context.template_version_id constructor
          r.values)
    pure (record {
      context = context;
      blocks = constructor.blocks;
      input_payload = constructor_input r.template_version_id constructor r.values;
      normalized_payload = mapped.normalized_payload;
      cache_key = mapped.cache_key;
    })

  unfoldable pub new_imported_job : JobRequest → Io O NewJob
  new_imported_job r = do
    context ←
        session (
          resolve r.organization_id r.template_id r.template_version_id
            r.require_published_template)
    raise_if (not (str_eq context.render_strategy "docx_import")) validation
    session (enforce_generation_allowed s.clock r.organization_id [])
    prepared ← lift (
        prepare_payload s.import_digest context.render_strategy
          (s.uuid_string context.template_version_id) context.import_bindings r.values)
    pure (record {
      context = context;
      blocks = [];
      input_payload = import_input r.values;
      normalized_payload = as_values prepared.0;
      cache_key = prepared.1;
    })

  -- DocumentService.create_job
  unfoldable pub create_job : JobRequest → DocumentConstructor → Io O DocumentJobResponse
  unfolding transaction new_job record_job enqueue_generation_job
  create_job r constructor = do
    created ← transaction (new_job r constructor >>= λ n. record_job n r.current_user_id)
    dispatch r.current_user_id created

  -- DocumentService.create_imported_job
  unfoldable pub create_imported_job : JobRequest → Io O DocumentJobResponse
  unfolding transaction new_imported_job record_job enqueue_generation_job
  create_imported_job r = do
    created ← transaction (new_imported_job r >>= λ n. record_job n r.current_user_id)
    dispatch r.current_user_id created
