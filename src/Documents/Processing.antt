-- ===== src/Documents/Processing.antt =====
-- app/services/generation/document_generation_service.py: a worker processes one job, from the claim to the stored files, and
-- what it does with an error.
use Prim.Native.String.{String}
use document_generation_anek.Prelude.{
  [], ◌∷◌, ℕ, ◌+◌, ◌-◌, Bool, true, false, Option, none, some, List, length,
}
use document_generation_anek.Text.{Text}
use document_generation_anek.Json.{Value, Dict}
use document_generation_anek.Models.{
  JobInput, constructor_input, import_input, DocumentJob, document_job_completed,
  document_job_failed,
}
use document_generation_anek.Result.{
  Error, Result, ok, storage, os_error, retryable_generation, permanent_generation,
  ◌>>=◌ as then_result,
}
use document_generation_anek.Database.{Tx}
use document_generation_anek.Audit.{log_event}
use document_generation_anek.Jobs.{
  get_by_id, claim_for_processing, mark_completed, mark_failed, requeue,
  recover_stale_processing_jobs,
}
use document_generation_anek.Billing.Limits.{enforce_storage_delta_allowed}
use document_generation_anek.Storage.{Bytes, download_bytes}
use document_generation_anek.Rendering.Payload.{prepare_payload}
use document_generation_anek.World.{Io, pure, raise, lift, session, catch, transaction, ◌>>=◌, ◌>>◌}
use document_generation_anek.Documents.Resolver.{ResolvedTemplateContext, resolve}
use document_generation_anek.Documents.Mapper.{ResolvedDocument, map_document}
use document_generation_anek.Documents.Services.{Services}
use document_generation_anek.Documents.Stored.{store_docx, store_pdf}
use document_generation_anek.Documents.Creation.{as_values}
use document_generation_anek.Documents.Filling.{fill_document}

-- what is to be rendered: the values of an imported template, or a resolved document
pub data Source : Type 0 where
  imported : Dict (Option Text) → Source
  resolved : ResolvedDocument → Source

pub record Prepared : Type 0 where
  pub source : Source
  pub normalized_payload : Dict Value
  pub cache_key : String

-- a claimed job
pub record Claimed : Type 0 where
  pub context : ResolvedTemplateContext
  pub source : Source

-- the bytes of the DOCX file, and of the PDF file of a constructor's document
pub record Rendered : Type 0 where
  pub docx_bytes : Bytes
  pub pdf_bytes : Option Bytes

-- `_is_retryable_error`
unfoldable pub is_retryable_error : Error → Bool
is_retryable_error storage = true
is_retryable_error os_error = true
is_retryable_error _ = false

abbrev pub pdf_size : Option Bytes → ℕ
pdf_size none = 0
pdf_size (some content) = length content

module _ {O : Type 0} (s : Services O) where
  -- the payload that the job's input maps to
  unfoldable pub prepare : ResolvedTemplateContext → JobInput → Result Prepared
  prepare context (import_input values) =
      then_result
        (prepare_payload s.import_digest context.render_strategy
          (s.uuid_string context.template_version_id) context.import_bindings values)
        λ p.
          ok (record { source = imported p.0; normalized_payload = as_values p.0; cache_key = p.1 })
  prepare context (constructor_input version constructor values) =
      then_result
        (map_document s.digest s.max_image_size_bytes context.template_version_id constructor
          values)
        λ m. ok (record {
          source = resolved m.document;
          normalized_payload = m.normalized_payload;
          cache_key = m.cache_key;
        })

  abbrev pub if_claimed : Claimed → Option DocumentJob → Option Claimed
  if_claimed claimed none = none
  if_claimed claimed (some job) = some claimed

  -- none where there is no such job, or another worker has it
  abbrev pub claim_found : Option DocumentJob → Io O (Option Claimed)
  claim_found none = pure none
  claim_found (some job) = do
    context ←
        session (resolve job.organization_id job.template_id (some job.template_version_id) false)
    prepared ← lift (prepare context job.input_payload)
    claimed_job ← session (
        claim_for_processing s.locked (job ∷ []) job.id prepared.normalized_payload
          prepared.cache_key s.now (some (s.now - s.stale_job_timeout)))
    pure (if_claimed (record { context = context; source = prepared.source }) claimed_job)

  -- the first transaction of `process_job`
  unfoldable pub claim_job : ℕ → Io O (Option Claimed)
  unfolding transaction prepare
  claim_job job_id = transaction (session (get_by_id job_id none) >>= claim_found)

  abbrev pub render_source : ResolvedTemplateContext → Source → Io O Rendered
  render_source context (imported values) = do
    source_bytes ← download_bytes s.client context.storage_key
    document ← lift (s.load_docx_document source_bytes)
    runs ← lift (fill_document document context.import_bindings values)
    pure (record { docx_bytes = s.save document runs; pdf_bytes = none })
  render_source context (resolved document) = do
    docx_bytes ← lift (s.compose document)
    pdf_bytes ← lift (s.render_pdf document)
    pure (record { docx_bytes = docx_bytes; pdf_bytes = some pdf_bytes })

  abbrev pub store_pdf_if : ResolvedTemplateContext → DocumentJob → Option Bytes → Io O (Unit {0})
  store_pdf_if context job none = pure tt
  store_pdf_if context job (some content) = do
    store_pdf s context job.id job.requested_by_user_id content
    pure tt

  abbrev pub complete_found : ResolvedTemplateContext → Rendered → Option DocumentJob → Io O Bool
  complete_found context rendered none = pure false
  complete_found context rendered (some job) = do
    session (
        enforce_storage_delta_allowed s.clock job.organization_id
          (length rendered.docx_bytes + pdf_size rendered.pdf_bytes))
    store_docx s context job.id job.requested_by_user_id rendered.docx_bytes
    store_pdf_if context job rendered.pdf_bytes
    session (mark_completed s.now job)
    session (
        log_event job.organization_id job.requested_by_user_id document_job_completed (some job.id))
    pure true

  -- the second transaction
  unfoldable pub complete_job : ℕ → ResolvedTemplateContext → Rendered → Io O Bool
  unfolding transaction
  complete_job job_id context rendered =
      transaction (session (get_by_id job_id none) >>= complete_found context rendered)

  abbrev pub run_claimed : ℕ → Option Claimed → Io O Bool
  run_claimed job_id none = pure false
  run_claimed job_id (some claimed) = do
    rendered ← render_source claimed.context claimed.source
    complete_job job_id claimed.context rendered

  -- the body of the `try`
  unfoldable pub run_job : ℕ → Io O Bool
  unfolding claim_job complete_job
  run_job job_id = claim_job job_id >>= run_claimed job_id

  abbrev pub requeue_found : String → Option DocumentJob → Tx (Unit {0})
  requeue_found message none db = ok (tt, db)
  requeue_found message (some job) db =
      then_result (requeue (some message) job db) λ r. ok (tt, r.1)

  -- `_requeue_job`
  unfoldable pub requeue_job : ℕ → String → Io O (Unit {0})
  unfolding transaction
  requeue_job job_id message =
      transaction (do job ← session (get_by_id job_id none); session (requeue_found message job))

  abbrev pub fail_found : String → Option DocumentJob → Io O (Unit {0})
  fail_found message none = pure tt
  fail_found message (some job) = do
    session (mark_failed message s.now job)
    session
        (log_event job.organization_id job.requested_by_user_id document_job_failed (some job.id))

  -- `_mark_failed_job`
  unfoldable pub mark_failed_job : ℕ → String → Io O (Unit {0})
  unfolding transaction
  mark_failed_job job_id message =
      transaction (session (get_by_id job_id none) >>= fail_found message)

  -- `except Exception as error`
  abbrev pub settle : ℕ → Error → Bool → Io O Bool
  settle job_id e true = do requeue_job job_id (s.error_text e); raise retryable_generation
  settle job_id e false = do mark_failed_job job_id (s.error_text e); raise permanent_generation

  -- DocumentGenerationService.process_job
  unfoldable pub process_job : ℕ → Io O Bool
  unfolding run_job requeue_job mark_failed_job is_retryable_error
  process_job job_id = catch (run_job job_id) λ e. settle job_id e (is_retryable_error e)

  -- DocumentGenerationService.recover_stale_jobs
  unfoldable pub recover_stale_jobs : ℕ → Io O (List ℕ)
  unfolding transaction
  recover_stale_jobs limit =
      transaction
        (session (recover_stale_processing_jobs s.locked (s.now - s.stale_job_timeout) limit))
