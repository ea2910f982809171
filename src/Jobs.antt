-- ===== src/Jobs.antt =====
-- app/repositories/document_repository.py: the lifecycle of document jobs. The time that a method
-- reads is its argument `now`, and `locked` says which rows other transactions hold (SKIP LOCKED).
pub mod Lifecycle
pub mod Ids
pub mod Claim
pub mod Cache
pub mod Recovery
mod Tests
use Prim.Native.String.{String}
use text.Mathlib.Text.{◌==◌ as str_eq}
use mathlib.Core.List.{reverse}
use document_generation_anek.Prelude.{
  ℕ, ◌+◌, Bool, true, false, not, ◌&&◌, ◌||◌, Option, none, some, List, [], ◌∷◌, ◌++◌, map, leb,
  ltb, ◌==◌, if◌then◌else◌, length, any, take, find, select, update, sort_by, is_some, opt_eq,
}
use document_generation_anek.Json.{Value, Dict}
use document_generation_anek.Models.{
  DocumentJobStatus, queued, processing, completed, failed, DocumentJob, DocumentArtifact,
  is_status,
}
use document_generation_anek.Database.{Db, Tx, pure, gets, ◌>>=◌}
use document_generation_anek.Result.{ok}

-- A write to a loaded row. The object is taken to be the row as the table has it: a flush writes the columns that `f`
-- changes, and where no other session has written the row since it was loaded, that makes the row `f` of what it was.
abbrev pub save : (DocumentJob → DocumentJob) → DocumentJob → Tx DocumentJob
save f job db = pure (f job) (record db { jobs = update (λ r. r.id == job.id) f db.jobs })

unfoldable pub create : DocumentJob → Tx DocumentJob
create job db = pure job (record db { jobs = db.jobs ++ job ∷ [] })

abbrev pub in_organization : Option ℕ → DocumentJob → Bool
in_organization none r = true
in_organization (some o) r = r.organization_id == o

unfoldable pub get_by_id : ℕ → Option ℕ → Tx (Option DocumentJob)
get_by_id job_id organization_id =
    gets (λ db. find (λ r. r.id == job_id && in_organization organization_id r) db.jobs)

-- the writes of `mark_processing`
unfoldable pub processing_row : Dict Value → String → ℕ → DocumentJob → DocumentJob
processing_row payload key now r = record r {
  status = processing;
  normalized_payload = some payload;
  cache_key = some key;
  started_at = some now;
}

unfoldable pub mark_processing : Dict Value → String → ℕ → DocumentJob → Tx DocumentJob
unfolding processing_row
mark_processing payload key now = save (processing_row payload key now)

-- the writes of `claim_for_processing`
unfoldable pub claimed_row : Dict Value → String → ℕ → DocumentJob → DocumentJob
claimed_row payload key now r = record r {
  status = processing;
  normalized_payload = some payload;
  cache_key = some key;
  started_at = some now;
  completed_at = none;
  error_message = none;
}

abbrev pub started_by : Option ℕ → ℕ → Bool
started_by none stale_before = false
started_by (some t) stale_before = leb t stale_before

unfoldable pub is_stale_processing : Option ℕ → DocumentJob → Bool
is_stale_processing none job = false
is_stale_processing (some stale_before) job =
    is_status job.status processing && started_by job.started_at stale_before

unfoldable pub is_claimable : Option ℕ → DocumentJob → Bool
unfolding is_stale_processing
is_claimable stale_before job = is_status job.status queued || is_stale_processing stale_before job

claim_found : Dict Value → String → ℕ → Option ℕ → Option DocumentJob → Tx (Option DocumentJob)
unfolding is_claimable claimed_row
claim_found payload key now stale_before none = pure none
claim_found payload key now stale_before (some job) =
    if is_claimable stale_before job
    then (do claimed ← save (claimed_row payload key now) job; pure (some claimed))
    else pure none

-- the object of a row: a session that has loaded the row before keeps its object as it was then, also under
-- `with_for_update`, since the query does not ask for `populate_existing`
abbrev pub held_or : Option DocumentJob → DocumentJob → DocumentJob
held_or none row = row
held_or (some object) row = object

abbrev pub held : List DocumentJob → DocumentJob → DocumentJob
held objects row = held_or (find (λ j. j.id == row.id) objects) row

abbrev pub selected : List DocumentJob → Option DocumentJob → Option DocumentJob
selected objects none = none
selected objects (some row) = some (held objects row)

-- `objects` are the jobs that the session has loaded before
unfoldable pub claim_for_processing :
    (ℕ → Bool) → List DocumentJob → ℕ → Dict Value → String → ℕ → Option ℕ → Tx (Option DocumentJob)
unfolding claim_found
claim_for_processing locked objects job_id payload key now stale_before db =
    claim_found payload key now stale_before
      (selected objects (find (λ r. r.id == job_id && not (locked r.id)) db.jobs)) db

unfoldable pub completed_row : ℕ → DocumentJob → DocumentJob
completed_row now r = record r { status = completed; completed_at = some now; error_message = none }

unfoldable pub mark_completed : ℕ → DocumentJob → Tx DocumentJob
unfolding completed_row
mark_completed now = save (completed_row now)

unfoldable pub failed_row : String → ℕ → DocumentJob → DocumentJob
failed_row message now r = record r {
  status = failed;
  completed_at = some now;
  error_message = some message;
}

unfoldable pub mark_failed : String → ℕ → DocumentJob → Tx DocumentJob
unfolding failed_row
mark_failed message now = save (failed_row message now)

unfoldable pub requeued_row : Option String → DocumentJob → DocumentJob
requeued_row message r = record r {
  status = queued;
  started_at = none;
  completed_at = none;
  error_message = message;
}

unfoldable pub requeue : Option String → DocumentJob → Tx DocumentJob
unfolding requeued_row
requeue message = save (requeued_row message)

-- `desc(completed_at)`: PostgreSQL sorts NULL first in descending order
abbrev pub desc : Option ℕ → Option ℕ → Bool
desc none t = true
desc (some s) none = false
desc (some s) (some t) = leb t s

abbrev pub completed_desc : DocumentJob → DocumentJob → Bool
completed_desc a b = desc a.completed_at b.completed_at

abbrev pub key_is : Option String → String → Bool
key_is none key = false
key_is (some k) key = str_eq k key

unfoldable pub is_cache_hit : ℕ → ℕ → String → DocumentJob → Bool
is_cache_hit organization_id template_version_id key r =
    r.organization_id == organization_id
    && r.template_version_id == template_version_id
    && key_is r.cache_key key
    && is_status r.status completed

abbrev pub first : List DocumentJob → Option DocumentJob
first [] = none
first (x ∷ xs) = some x

unfoldable pub find_completed_cache_hit : ℕ → ℕ → String → Tx (Option DocumentJob)
unfolding is_cache_hit
find_completed_cache_hit organization_id template_version_id key = gets λ db.
    first (
      sort_by completed_desc
        (select (is_cache_hit organization_id template_version_id key) db.jobs))

-- Rows are in the order of insertion, which is that of `created_at`: among equal `completed_at` the sort, which is stable,
-- leaves the reversed rows with the latest `created_at` first.
unfoldable pub list_failed_jobs : ℕ → ℕ → Tx (List DocumentJob)
list_failed_jobs organization_id limit = gets λ db. take limit (
    sort_by completed_desc (
      reverse
        (select (λ r. r.organization_id == organization_id && is_status r.status failed) db.jobs)))

abbrev pub before : Option ℕ → ℕ → Bool
before none t = false
before (some s) t = ltb s t

-- `asc()` on a column that the query requires to be there
abbrev pub asc : Option ℕ → Option ℕ → Bool
asc none t = true
asc (some s) none = false
asc (some s) (some t) = leb s t

unfoldable pub list_failed_before : ℕ → ℕ → Tx (List DocumentJob)
list_failed_before failed_before limit = gets λ db. take limit (
    sort_by (λ a b. asc a.completed_at b.completed_at)
      (select (λ r. is_status r.status failed && before r.completed_at failed_before) db.jobs))

-- the rows that one recovery pass locks
unfoldable pub stale_jobs : (ℕ → Bool) → ℕ → ℕ → List DocumentJob → List DocumentJob
unfolding is_stale_processing
stale_jobs locked stale_before limit jobs = take limit (
    sort_by (λ a b. asc a.started_at b.started_at)
      (select (λ r. is_stale_processing (some stale_before) r && not (locked r.id)) jobs))

abbrev pub has_id : List DocumentJob → DocumentJob → Bool
has_id jobs r = any (λ j. j.id == r.id) jobs

unfoldable pub recover_stale_processing_jobs : (ℕ → Bool) → ℕ → ℕ → Tx (List ℕ)
unfolding stale_jobs requeued_row
recover_stale_processing_jobs locked stale_before limit db =
    let jobs = stale_jobs locked stale_before limit db.jobs in
    ok (
      map (λ j. j.id) jobs,
      record db {
        jobs = update (has_id jobs) (requeued_row (some "Recovered stale processing job.")) db.jobs;
      },
    )

abbrev pub belongs_to : List DocumentJob → Option ℕ → Bool
belongs_to jobs none = false
belongs_to jobs (some k) = any (λ j. j.id == k) jobs

pub record CacheStats : Type 0 where
  pub completed_jobs : ℕ
  pub cached_jobs : ℕ
  pub cached_artifacts : ℕ

abbrev pub is_completed_in : ℕ → DocumentJob → Bool
is_completed_in organization_id r =
    r.organization_id == organization_id && is_status r.status completed

-- the join with the cached artifacts of a job
abbrev pub has_cached : List DocumentArtifact → DocumentJob → Bool
has_cached artifacts r = any (λ a. a.is_cached && opt_eq a.document_job_id r.id) artifacts

unfoldable pub get_cache_stats : ℕ → Tx CacheStats
get_cache_stats organization_id = gets λ db. record {
  completed_jobs = length (select (is_completed_in organization_id) db.jobs);
  cached_jobs =
      length (select (λ r. is_completed_in organization_id r && has_cached db.artifacts r) db.jobs);
  cached_artifacts =
      length (select (λ a. a.organization_id == organization_id && a.is_cached) db.artifacts);
}

-- deleting a job sets `document_job_id` of its artifacts to NULL
unfoldable pub delete_jobs : List DocumentJob → Tx ℕ
delete_jobs jobs db = ok (
  length jobs,
  record db {
    jobs = select (λ r. not (has_id jobs r)) db.jobs;
    artifacts =
        update (λ a. belongs_to jobs a.document_job_id) (λ a. record a { document_job_id = none })
          db.artifacts;
  },
)
