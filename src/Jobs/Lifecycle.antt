-- ===== src/Jobs/Lifecycle.antt =====
-- What the columns of a job say about its status, whatever the workers and the scheduler do.
use Prim.Native.String.{String}
use document_generation_anek.Prelude.{
  ℕ, ◌++◌, not, ◌≡◌, refl, Option, none, some, List, [], ◌∷◌, true, false, is_some, All, All-append,
  All-update, All-select, All-weaken, ◌==◌, select, update, if◌then◌else◌, Bool,
}
use mathlib.Core.Path.{subst}
use document_generation_anek.Result.{ok}
use document_generation_anek.Json.{Value, Dict}
use document_generation_anek.Models.{
  DocumentJobStatus, queued, processing, completed, failed, DocumentJob,
}
use document_generation_anek.Database.{Db, ◌>>=◌, pure}
use document_generation_anek.Jobs.{
  save, create, processing_row, mark_processing, claimed_row, claim_found, claim_for_processing,
  completed_row, mark_completed, failed_row, mark_failed, requeued_row, requeue,
  recover_stale_processing_jobs, delete_jobs, held, is_claimable, stale_jobs, has_id,
}

-- What the status says of `started_at`, `completed_at` and `error_message`.
abbrev pub Agrees : DocumentJobStatus → Option ℕ → Option ℕ → Option String → Type 0
Agrees queued started_at completed_at error_message = (started_at ≡ none) × (completed_at ≡ none)
Agrees processing started_at completed_at error_message =
    (is_some started_at ≡ true) × (completed_at ≡ none)
Agrees completed started_at completed_at error_message =
    (is_some completed_at ≡ true) × (error_message ≡ none)
Agrees failed started_at completed_at error_message =
    (is_some completed_at ≡ true) × (is_some error_message ≡ true)

abbrev pub IsConsistent : DocumentJob → Type 0
IsConsistent r = Agrees r.status r.started_at r.completed_at r.error_message

abbrev pub AllConsistent : Db → Type 0
AllConsistent db = All IsConsistent db.jobs

pub claimed_row-IsConsistent :
    (payload : Dict Value) (key : String) (now : ℕ) (r : DocumentJob)
    → IsConsistent (claimed_row payload key now r)
unfolding claimed_row
claimed_row-IsConsistent payload key now r = (refl, refl)

pub completed_row-IsConsistent : (now : ℕ) (r : DocumentJob) → IsConsistent (completed_row now r)
unfolding completed_row
completed_row-IsConsistent now r = (refl, refl)

pub failed_row-IsConsistent :
    (message : String) (now : ℕ) (r : DocumentJob) → IsConsistent (failed_row message now r)
unfolding failed_row
failed_row-IsConsistent message now r = (refl, refl)

pub requeued_row-IsConsistent :
    (message : Option String) (r : DocumentJob) → IsConsistent (requeued_row message r)
unfolding requeued_row
requeued_row-IsConsistent message r = (refl, refl)

waiting_part :
    (t : DocumentJobStatus) (a b : Option ℕ) (e : Option String)
    → t ≡ queued
    → Agrees t a b e
    → b ≡ none
waiting_part t a b e q h = (subst (λ u. Agrees u a b e) q h).1

-- `mark_processing` keeps `completed_at`, so it needs a job that has not ended.
pub processing_row-IsConsistent :
    (payload : Dict Value) (key : String) (now : ℕ) (r : DocumentJob)
    → r.status ≡ queued
    → IsConsistent r
    → IsConsistent (processing_row payload key now r)
unfolding processing_row
processing_row-IsConsistent payload key now r q h = (refl, waiting_part r.status _ _ _ q h)

-- a job as it is created
new_job :
    (t : DocumentJobStatus) (a b : Option ℕ) (e : Option String)
    → t ≡ queued
    → a ≡ none
    → b ≡ none
    → Agrees t a b e
new_job t a b e q0 q1 q2 = rw q0 (q1, q2)

-- the object that a session works on is the row as it stands
abbrev pub IsCurrent : DocumentJob → Db → Type 0
IsCurrent job db = All (λ r. (r.id == job.id) ≡ true → r ≡ job) db.jobs

-- One operation of the repository, by any session that has loaded the row after the last write.
pub data Step (db db' : Db) : Type 0 where
  creates :
      (job : DocumentJob)
      → (job.status ≡ queued) × (job.started_at ≡ none) × (job.completed_at ≡ none)
      → create job db ≡ ok (job, db')
      → Step db db'
  starts :
      (payload : Dict Value) (key : String) (now : ℕ) (job j : DocumentJob)
      → IsCurrent job db
      → job.status ≡ queued
      → mark_processing payload key now job db ≡ ok (j, db')
      → Step db db'
  claims :
      (locked : ℕ → Bool) (objects : List DocumentJob) (job_id : ℕ) (payload : Dict Value)
      (key : String) (now : ℕ) (stale_before : Option ℕ) (o : Option DocumentJob)
      → All (λ r. held objects r ≡ r) db.jobs
      → claim_for_processing locked objects job_id payload key now stale_before db ≡ ok (o, db')
      → Step db db'
  completes :
      (now : ℕ) (job j : DocumentJob)
      → IsCurrent job db
      → mark_completed now job db ≡ ok (j, db')
      → Step db db'
  fails :
      (message : String) (now : ℕ) (job j : DocumentJob)
      → IsCurrent job db
      → mark_failed message now job db ≡ ok (j, db')
      → Step db db'
  requeues :
      (message : Option String) (job j : DocumentJob)
      → IsCurrent job db
      → requeue message job db ≡ ok (j, db')
      → Step db db'
  recovers :
      (locked : ℕ → Bool) (stale_before limit : ℕ) (ids : List ℕ)
      → recover_stale_processing_jobs locked stale_before limit db ≡ ok (ids, db')
      → Step db db'
  deletes : (jobs : List DocumentJob) (n : ℕ) → delete_jobs jobs db ≡ ok (n, db') → Step db db'

pub data Reach (db : Db) : Db → Type 0 where
  here : Reach db db
  next : {d d' : Db} → Reach db d → Step d d' → Reach db d'

-- a write that makes every row consistent keeps the table consistent
save-AllConsistent :
    (f : DocumentJob → DocumentJob) (job j : DocumentJob) (db db' : Db)
    → ((x : DocumentJob) → (x.id == job.id) ≡ true → IsConsistent x → IsConsistent (f x))
    → save f job db ≡ ok (j, db')
    → AllConsistent db
    → AllConsistent db'
save-AllConsistent f job j db db' keep e h =
    let q : record db { jobs = update (λ r. r.id == job.id) f db.jobs } ≡ db' = cc in
    subst AllConsistent q (All-update IsConsistent (λ r. r.id == job.id) f db.jobs keep h)

claim_found-AllConsistent :
    (payload : Dict Value) (key : String) (now : ℕ) (stale_before : Option ℕ)
    (o o' : Option DocumentJob) (db db' : Db)
    → claim_found payload key now stale_before o db ≡ ok (o', db')
    → AllConsistent db
    → AllConsistent db'
unfolding claim_found
claim_found-AllConsistent payload key now stale_before none o' db db' e h =
    let q : db ≡ db' = cc in subst AllConsistent q h
claim_found-AllConsistent payload key now stale_before (some job) o' db db' e h =
    split (is_claimable stale_before job) e
  where
    split :
        (b : Bool)
        → (if b
              then (do claimed ← save (claimed_row payload key now) job; pure (some claimed))
              else pure none)
            db
          ≡ ok (o', db')
        → AllConsistent db'
    split true g =
        save-AllConsistent (claimed_row payload key now) job (claimed_row payload key now job) db
          db' (λ x _ _. claimed_row-IsConsistent payload key now x) (cc) h
    split false g = let q : db ≡ db' = cc in subst AllConsistent q h

-- the starting rows are queued, so each becomes a consistent processing row
starts-AllConsistent :
    (payload : Dict Value) (key : String) (now k : ℕ) (jobs : List DocumentJob)
    → All (λ r. (r.id == k) ≡ true → r.status ≡ queued) jobs
    → All IsConsistent jobs
    → All IsConsistent (update (λ r. r.id == k) (processing_row payload key now) jobs)
starts-AllConsistent payload key now k [] q h = tt
starts-AllConsistent payload key now k (r ∷ rs) q h =
    (one (r.id == k) q.0, starts-AllConsistent payload key now k rs q.1 h.1)
  where
    one :
        (b : Bool)
        → (b ≡ true → r.status ≡ queued)
        → IsConsistent (if b then processing_row payload key now r else r)
    one true g = processing_row-IsConsistent payload key now r (g refl) h.0
    one false g = h.0

Step-AllConsistent : {db db' : Db} → Step db db' → AllConsistent db → AllConsistent db'
unfolding create mark_processing claim_for_processing mark_completed mark_failed requeue
    recover_stale_processing_jobs delete_jobs
Step-AllConsistent {db} {db'} (creates job (q0, q1, q2) e) h =
    let q : record db { jobs = db.jobs ++ job ∷ [] } ≡ db' = cc in
    subst AllConsistent q (
      All-append IsConsistent db.jobs (job ∷ []) h
        (new_job job.status _ _ job.error_message q0 q1 q2, tt))
Step-AllConsistent {db} {db'} (starts payload key now job j current q0 e) h =
    let q : record db {
      jobs = update (λ r. r.id == job.id) (processing_row payload key now) db.jobs;
    }
        ≡ db' =
      cc in
    subst AllConsistent q (
      starts-AllConsistent payload key now job.id db.jobs
        (All-weaken _ _ db.jobs (λ r f g. rw (f g) q0) current) h)
Step-AllConsistent {db} {db'} (claims locked objects job_id payload key now stale_before o _ e) h =
    claim_found-AllConsistent payload key now stale_before _ o db db' e h
Step-AllConsistent {db} {db'} (completes now job j _ e) h =
    save-AllConsistent (completed_row now) job j db db' (λ x _ _. completed_row-IsConsistent now x)
      e h
Step-AllConsistent {db} {db'} (fails message now job j _ e) h =
    save-AllConsistent (failed_row message now) job j db db'
      (λ x _ _. failed_row-IsConsistent message now x) e h
Step-AllConsistent {db} {db'} (requeues message job j _ e) h =
    save-AllConsistent (requeued_row message) job j db db'
      (λ x _ _. requeued_row-IsConsistent message x) e h
Step-AllConsistent {db} {db'} (recovers locked stale_before limit ids e) h =
    let jobs = stale_jobs locked stale_before limit db.jobs in
    let q : record db {
      jobs = update (has_id jobs) (requeued_row (some "Recovered stale processing job.")) db.jobs;
    }
        ≡ db' =
      cc in
    subst AllConsistent q (
      All-update IsConsistent (has_id jobs) _ db.jobs
        (λ x _ _. requeued_row-IsConsistent (some "Recovered stale processing job.") x) h)
Step-AllConsistent {db} {db'} (deletes jobs n e) h =
    let q : db'.jobs ≡ select (λ r. not (has_id jobs r)) db.jobs = cc in
    rw q (All-select IsConsistent (λ r. not (has_id jobs r)) db.jobs h)

-- Whatever sequence of creations, starts, claims, completions, failures, requeues, recoveries and deletions is run, one
-- after the other, every job's `started_at`, `completed_at` and `error_message` agree with its status, where they did at
-- the start. Each operation works on the row as it stands, loaded after the last write to it; new jobs are queued and have
-- no times, as the services create them, and the jobs that `mark_processing` starts are queued.
pub Reach-AllConsistent : {db db' : Db} → AllConsistent db → Reach db db' → AllConsistent db'
Reach-AllConsistent h here = h
Reach-AllConsistent h (next r s) = Step-AllConsistent s (Reach-AllConsistent h r)
