-- ===== src/Documents/Settlement.antt =====
-- What `process_job` leaves behind when the processing of a job raises.
use document_generation_anek.Prelude.{
  ℕ, ◌≡◌, refl, ◌∙◌, Bool, true, false, ◌&&◌, some, List, find, update, find-update, ==-self, ◌==◌,
  if◌then◌else◌,
}
use document_generation_anek.Result.{
  Error, Result, err, not_found, conflict, validation, authentication, authorization,
  too_many_requests, unsafe_key, storage, value_error, fault, s3_error, os_error,
  retryable_generation, permanent_generation,
}
use document_generation_anek.Models.{DocumentJob}
use document_generation_anek.Audit.{log_event}
use document_generation_anek.Jobs.{get_by_id, requeue, requeued_row, mark_failed, failed_row}
use document_generation_anek.World.{World, transaction}
use document_generation_anek.Documents.Services.{Services}
use document_generation_anek.Documents.Processing.{
  run_job, settle, is_retryable_error, requeue_job, mark_failed_job, process_job,
}

-- the errors of the outside world, which may be gone at the next attempt
abbrev pub is_transient : Error → Bool
is_transient storage = true
is_transient os_error = true
is_transient _ = false

retryable_lem : (e : Error) → is_retryable_error e ≡ is_transient e
unfolding is_retryable_error
retryable_lem not_found = refl
retryable_lem conflict = refl
retryable_lem validation = refl
retryable_lem authentication = refl
retryable_lem authorization = refl
retryable_lem too_many_requests = refl
retryable_lem unsafe_key = refl
retryable_lem storage = refl
retryable_lem value_error = refl
retryable_lem fault = refl
retryable_lem s3_error = refl
retryable_lem os_error = refl
retryable_lem retryable_generation = refl
retryable_lem permanent_generation = refl

module _ {O : Type 0} (s : Services O) where
  -- whether the error is worth another attempt decides between the two
  abbrev pub error_of : Bool → Error
  error_of b = if b then retryable_generation else permanent_generation

  -- the job as it is left: waiting again, or failed with the message
  abbrev pub settled_row : Bool → Error → DocumentJob → DocumentJob
  settled_row b e job =
      if b then requeued_row (some (s.error_text e)) job else failed_row (s.error_text e) s.now job

  found_after :
      (job_id : ℕ) (f : DocumentJob → DocumentJob) (jobs : List DocumentJob) (job : DocumentJob)
      → ((r : DocumentJob) → (f r).id ≡ r.id)
      → find (λ r. r.id == job_id && true) jobs ≡ some job
      → find (λ r. r.id == job_id && true) (update (λ r. r.id == job.id) f jobs) ≡ some (f job)
  found_after job_id f jobs job same h =
      find-update (λ r. r.id == job_id && true) (λ r. r.id == job.id) f jobs job
        (λ r. rw (same r) refl) h
      ∙ rw (==-self job.id) refl

  module _ (job_id : ℕ) (w1 : World O) (e : Error) (job : DocumentJob)
      (k : find (λ r. r.id == job_id && true) w1.db.jobs ≡ some job) where
    abbrev pub IsSettled : Bool → Result Bool × World O → Type 0
    IsSettled b x =
        (w2 : World O) × (x ≡ (err (error_of b), w2))
        × (find (λ r. r.id == job_id && true) w2.db.jobs ≡ some (settled_row b e job))
        × (w2.objects ≡ w1.objects)

    settle-IsSettled : (b : Bool) → IsSettled b (settle s job_id e b w1)
    unfolding requeue_job mark_failed_job transaction get_by_id requeue requeued_row mark_failed
        failed_row log_event
    settle-IsSettled true = (
      (settle s job_id e true w1).1,
      rw k refl,
      rw k (found_after job_id (requeued_row (some (s.error_text e))) w1.db.jobs job (λ r. refl) k),
      rw k refl,
    )
    settle-IsSettled false = (
      (settle s job_id e false w1).1,
      rw k refl,
      rw k (found_after job_id (failed_row (s.error_text e) s.now) w1.db.jobs job (λ r. refl) k),
      rw k refl,
    )

  -- Where the processing of a job raises, `process_job` raises one of its two errors, by the kind of the error: after an
  -- error of the storage or the system the job waits in the queue again, after any other one it has failed; both keep
  -- the error's text. The object store is left as the processing left it.
  pub process_job-IsSettled :
      (job_id : ℕ) (w w1 : World O) (e : Error) (job : DocumentJob)
      → run_job s job_id w ≡ (err e, w1)
      → (k : find (λ r. r.id == job_id && true) w1.db.jobs ≡ some job)
      → IsSettled job_id w1 e job k (is_transient e) (process_job s job_id w)
  unfolding process_job
  process_job-IsSettled job_id w w1 e job h k =
      rw h (rw (retryable_lem e) (settle-IsSettled job_id w1 e job k (is_transient e)))
