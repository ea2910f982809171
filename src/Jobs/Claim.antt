-- ===== src/Jobs/Claim.antt =====
-- `claim_for_processing`: which jobs a worker gets, and that two workers do not get the same one.
use Prim.Native.String.{String}
use document_generation_anek.Prelude.{
  ℕ, ◌≡◌, refl, Option, none, some, List, true, false, not, ◌&&◌, All, find, update, ◌==◌, Bool,
  Bool-cases, Option-cases, inl, inr,
}
use document_generation_anek.Result.{ok}
use document_generation_anek.Json.{Value, Dict}
use document_generation_anek.Models.{DocumentJob}
use document_generation_anek.Database.{Db}
use document_generation_anek.Jobs.{
  selected, held, claimed_row, claim_found, claim_for_processing, is_claimable,
}

-- the row that a claim looks at
abbrev pub candidate : (ℕ → Bool) → List DocumentJob → ℕ → Db → Option DocumentJob
candidate locked objects job_id db =
    selected objects (find (λ r. r.id == job_id && not (locked r.id)) db.jobs)

-- the objects of the session are the rows as they stand
abbrev pub IsFresh : List DocumentJob → Db → Type 0
IsFresh objects db = All (λ r. held objects r ≡ r) db.jobs

claim_cases :
    (locked : ℕ → Bool) (objects : List DocumentJob) (job_id : ℕ) (payload : Dict Value)
    (key : String) (now : ℕ) (stale_before : Option ℕ) (db : Db)
    → (candidate locked objects job_id db ≡ none
        → claim_for_processing locked objects job_id payload key now stale_before db
          ≡ ok (none, db))
      × ((job : DocumentJob)
          → candidate locked objects job_id db ≡ some job
          → is_claimable stale_before job ≡ false
          → claim_for_processing locked objects job_id payload key now stale_before db
            ≡ ok (none, db))
      × ((job : DocumentJob)
          → candidate locked objects job_id db ≡ some job
          → is_claimable stale_before job ≡ true
          → claim_for_processing locked objects job_id payload key now stale_before db
            ≡ ok (
              some (claimed_row payload key now job),
              record db {
                jobs = update (λ r. r.id == job.id) (claimed_row payload key now) db.jobs;
              },
            ))
unfolding claim_for_processing claim_found
claim_cases locked objects job_id payload key now stale_before db = (
  λ e. rw (e, claim_found) refl,
  λ job e c. rw (e, claim_found) (rw c refl),
  λ job e c. rw (e, claim_found) (rw c refl),
)

-- what a successful claim found and wrote
pub claim-inv :
    (locked : ℕ → Bool) (objects : List DocumentJob) (job_id : ℕ) (payload : Dict Value)
    (key : String) (now : ℕ) (stale_before : Option ℕ) (j : DocumentJob) (db db' : Db)
    → claim_for_processing locked objects job_id payload key now stale_before db ≡ ok (some j, db')
    → (job : DocumentJob) × (candidate locked objects job_id db ≡ some job)
      × (is_claimable stale_before job ≡ true)
      × (j ≡ claimed_row payload key now job)
      × (db'
          ≡ record db { jobs = update (λ r. r.id == job.id) (claimed_row payload key now) db.jobs })
claim-inv locked objects job_id payload key now stale_before j db db' e =
    let cases = claim_cases locked objects job_id payload key now stale_before db in
    elim (Option-cases (candidate locked objects job_id db)) [
      | inl n ↦ absurd (cc (cases.0 n))
      | inr (job, s) ↦ elim (Bool-cases (is_claimable stale_before job)) [
        | inl c ↦ (job, s, c, cc (cases.2 job s c), cc (cases.2 job s c))
        | inr c ↦ absurd (cc (cases.1 job s c))
      ]
    ]

-- A job that is queued, or that has been processing since the staleness limit, and that no other
-- session has locked, is claimed: the row becomes a processing row started now.
pub claim_available :
    (locked : ℕ → Bool) (objects : List DocumentJob) (job_id : ℕ) (payload : Dict Value)
    (key : String) (now : ℕ) (stale_before : Option ℕ) (job : DocumentJob) (db : Db)
    → candidate locked objects job_id db ≡ some job
    → is_claimable stale_before job ≡ true
    → claim_for_processing locked objects job_id payload key now stale_before db
      ≡ ok (
        some (claimed_row payload key now job),
        record db { jobs = update (λ r. r.id == job.id) (claimed_row payload key now) db.jobs },
      )
claim_available locked objects job_id payload key now stale_before job db =
    (claim_cases locked objects job_id payload key now stale_before db).2 job
