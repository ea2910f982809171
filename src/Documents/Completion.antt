-- ===== src/Documents/Completion.antt =====
-- A job whose processing returns true is completed.
use mathlib.Core.Path.{subst}
use document_generation_anek.Prelude.{
  ℕ, ◌+◌, ◌≡◌, refl, ◌∙◌, Bool, true, false, ◌&&◌, Option, none, some, List, length, find, update,
  find-update, ==-self, ◌==◌,
}
use document_generation_anek.Text.{codes}
use document_generation_anek.Result.{
  Error, Result, ok, err, retryable_generation, permanent_generation,
}
use document_generation_anek.Models.{completed, DocumentJob, document_job_completed}
use document_generation_anek.Database.{Db}
use document_generation_anek.Audit.{log_event}
use document_generation_anek.Jobs.{get_by_id, mark_completed, completed_row, in_organization}
use document_generation_anek.Billing.Limits.{enforce_storage_delta_allowed}
use document_generation_anek.Billing.Footprint.{enforce_storage-IsMetering}
use document_generation_anek.World.{
  World, Io, pure, raise, session, then_do, commit, handle, transaction, ◌>>◌,
}
use document_generation_anek.World.Keeps.{leaves_then}
use document_generation_anek.Documents.Resolver.{ResolvedTemplateContext}
use document_generation_anek.Documents.Services.{Services}
use document_generation_anek.Documents.Stored.{store_docx}
use document_generation_anek.Documents.Processing.{
  Claimed, Rendered, pdf_size, store_pdf_if, complete_found, complete_job, render_source, claim_job,
  run_claimed, run_job, settle, is_retryable_error, requeue_job, mark_failed_job, process_job,
}
use document_generation_anek.Documents.Footprint.{
  jobs_of, metering-KeepsJobs, store_generated-KeepsJobs, store_pdf_if-KeepsJobs,
}

module _ {O : Type 0} (s : Services O) where
  -- the job is completed, and has no error
  abbrev pub IsCompleted : ℕ → Db → Type 0
  IsCompleted job_id db =
      (job : DocumentJob) × (find (λ r. r.id == job_id && in_organization none r) db.jobs
        ≡ some job)
      × (job.status ≡ completed)
      × (job.error_message ≡ none)

  -- what an outcome says of the job
  abbrev Done : ℕ → Result Bool × World O → Type 0
  Done job_id (ok true, w) = IsCompleted job_id w.db
  Done job_id (ok false, w) = Unit {0}
  Done job_id (err e, w) = Unit {0}

  completes :
      (job_id : ℕ) (jobs : List DocumentJob) (job : DocumentJob)
      → find (λ r. r.id == job_id && in_organization none r) jobs ≡ some job
      → find
          (λ r. r.id == job_id && in_organization none r)
          (update (λ r. r.id == job.id) (completed_row s.now) jobs)
        ≡ some (completed_row s.now job)
  unfolding completed_row
  completes job_id jobs job h =
      find-update (λ r. r.id == job_id && in_organization none r) (λ r. r.id == job.id)
        (completed_row s.now) jobs job (λ r. refl) h
      ∙ rw (==-self job.id) refl

  module _ (context : ResolvedTemplateContext) (rendered : Rendered) (job_id : ℕ)
      (jobs : List DocumentJob) (job : DocumentJob)
      (found : find (λ r. r.id == job_id && in_organization none r) jobs ≡ some job) where
    marked : Io O Bool
    marked = do
      session (mark_completed s.now job)
      session (
          log_event job.organization_id job.requested_by_user_id document_job_completed
            (some job.id))
      pure true

    marked-Done : (w : World O) → w.db.jobs ≡ jobs → Done job_id (marked w)
    unfolding marked mark_completed log_event completed_row
    marked-Done w q = (completed_row s.now job, rw q (completes job_id jobs job found), refl, refl)

    complete_found-Done :
        (w : World O)
        → w.db.jobs ≡ jobs
        → Done job_id (complete_found s context rendered (some job) w)
    unfolding marked store_docx
    complete_found-Done w q =
        let size = length rendered.docx_bytes + pdf_size rendered.pdf_bytes in
        leaves_then jobs_of (Done job_id)
          (session (enforce_storage_delta_allowed s.clock job.organization_id size)) _ jobs
          (λ e v. tt)
          (metering-KeepsJobs (enforce_storage_delta_allowed s.clock job.organization_id size)
            (enforce_storage-IsMetering s.clock job.organization_id size))
          (λ _.
            leaves_then jobs_of (Done job_id)
              (store_docx s context job.id job.requested_by_user_id rendered.docx_bytes) _ jobs
              (λ e v. tt)
              (store_generated-KeepsJobs s _ (codes ".docx")
                "application/vnd.openxmlformats-officedocument.wordprocessingml.document" context
                job.id job.requested_by_user_id rendered.docx_bytes)
              λ _.
                leaves_then jobs_of (Done job_id) (store_pdf_if s context job rendered.pdf_bytes)
                  (λ _. marked) jobs (λ e v. tt)
                  (store_pdf_if-KeepsJobs s context job rendered.pdf_bytes) λ _. marked-Done)
          w q

  committed :
      (job_id : ℕ) (db : Db) (r : Result Bool × World O) → Done job_id r → Done job_id (commit db r)
  committed job_id db (ok true, w) h = h
  committed job_id db (ok false, w) h = tt
  committed job_id db (err e, w) h = tt

  complete_job-Done :
      (job_id : ℕ) (context : ResolvedTemplateContext) (rendered : Rendered) (w : World O)
      → Done job_id (complete_job s job_id context rendered w)
  unfolding complete_job transaction get_by_id
  complete_job-Done job_id context rendered w =
      committed job_id w.db _
        (go (find (λ r. r.id == job_id && in_organization none r) w.db.jobs) refl)
    where
      go :
          (o : Option DocumentJob)
          → find (λ r. r.id == job_id && in_organization none r) w.db.jobs ≡ o
          → Done job_id (complete_found s context rendered o w)
      go none h = tt
      go (some job) h = complete_found-Done context rendered job_id w.db.jobs job h w refl

  run_claimed-Done :
      (job_id : ℕ) (claimed : Option Claimed) (w : World O)
      → Done job_id (run_claimed s job_id claimed w)
  run_claimed-Done job_id none w = tt
  run_claimed-Done job_id (some c) w = go (render_source s c.context c.source w)
    where
      go :
          (r : Result Rendered × World O)
          → Done job_id (then_do r (complete_job s job_id c.context))
      go (ok rendered, v) = complete_job-Done job_id c.context rendered v
      go (err e, v) = tt

  settle-Done :
      (job_id : ℕ) (e : Error) (b : Bool) (w : World O) → Done job_id (settle s job_id e b w)
  settle-Done job_id e b w = go b
    where
      raised :
          (r : Result (Unit {0}) × World O) (x : Error)
          → Done job_id (then_do {B = Bool} r (λ _. raise x))
      raised (ok a, v) x = tt
      raised (err y, v) x = tt

      go : (b : Bool) → Done job_id (settle s job_id e b w)
      go true = raised (requeue_job s job_id (s.error_text e) w) retryable_generation
      go false = raised (mark_failed_job s job_id (s.error_text e) w) permanent_generation

  process_job-Done : (job_id : ℕ) (w : World O) → Done job_id (process_job s job_id w)
  unfolding process_job run_job
  process_job-Done job_id w = handled (run_job s job_id w) (claimed (claim_job s job_id w))
    where
      claimed :
          (r : Result (Option Claimed) × World O) → Done job_id (then_do r (run_claimed s job_id))
      claimed (ok c, v) = run_claimed-Done job_id c v
      claimed (err e, v) = tt

      handled :
          (r : Result Bool × World O)
          → Done job_id r
          → Done job_id (handle (λ e. settle s job_id e (is_retryable_error e)) r)
      handled (ok b, v) h = h
      handled (err e, v) h = settle-Done job_id e (is_retryable_error e) v

  -- Where `process_job` returns true, the job is in the tables, is completed, and carries no error message: whatever the
  -- object store and the renderers did, and whatever the limits and the metering wrote on the way.
  pub process_job-IsCompleted :
      (job_id : ℕ) (w w' : World O)
      → process_job s job_id w ≡ (ok true, w')
      → IsCompleted job_id w'.db
  process_job-IsCompleted job_id w w' h = subst (Done job_id) h (process_job-Done job_id w)
