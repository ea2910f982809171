-- ===== src/Maintenance/Cleanup.antt =====
-- The cleanup of failed jobs ends, leaves none that is past its retention, and keeps every other job.
use mathlib.Core.Path.{subst}
use document_generation_anek.Prelude.{
  ℕ, zero, suc, ◌≤◌, ◌<◌, ◌≡◌, refl, ◌∙◌, Bool, true, false, not, ◌&&◌, none, List, [], ◌∷◌, All,
  All-weaken, All-take, All-select, All-sort_by, update, any, any-sort_by, select, take, take-all,
  sort_by, length, ltb, ◌==◌, Bool-cases, inl, inr, if◌then◌else◌, arith,
}
use document_generation_anek.Models.{failed, DocumentJob, is_status}
use document_generation_anek.Result.{ok}
use document_generation_anek.Database.{Db}
use document_generation_anek.Jobs.{before, asc, has_id, belongs_to, list_failed_before, delete_jobs}
use document_generation_anek.Maintenance.{delete_batch, cleanup_batch}
use document_generation_anek.Jobs.Ids.{has_id-select, select-found, any_mono}
use document_generation_anek.Maintenance.Selections.{select-drop}

-- failed, and completed before the cutoff
abbrev pub is_old : ℕ → DocumentJob → Bool
is_old cutoff r = is_status r.status failed && before r.completed_at cutoff

abbrev pub old_jobs : ℕ → List DocumentJob → List DocumentJob
old_jobs cutoff jobs =
    sort_by (λ a b. asc a.completed_at b.completed_at) (select (is_old cutoff) jobs)

-- the primary key tells old jobs from the others
abbrev pub KeysTell : ℕ → List DocumentJob → List DocumentJob → Type 0
KeysTell cutoff jobs rows =
    All (λ r. is_old cutoff r ≡ false → has_id (select (is_old cutoff) jobs) r ≡ false) rows

any-take :
    (f : DocumentJob → Bool) (n : ℕ) (xs : List DocumentJob)
    → any f xs ≡ false
    → any f (take n xs) ≡ false
any-take f zero xs h = refl
any-take f (suc n) [] h = refl
any-take f (suc n) (x ∷ xs) h = ground (arith, any-take f n xs)

-- one batch deletes only old jobs
pub batch_old :
    (cutoff n : ℕ) (jobs : List DocumentJob)
    → KeysTell cutoff jobs jobs
    → All (λ r. is_old cutoff r ≡ false → has_id (take n (old_jobs cutoff jobs)) r ≡ false) jobs
batch_old cutoff n jobs h =
    All-weaken _ _ jobs
      (λ r f e.
        any-take (λ j. j.id == r.id) n (old_jobs cutoff jobs)
          (any-sort_by (λ a b. asc a.completed_at b.completed_at) (λ j. j.id == r.id)
              (select (is_old cutoff) jobs)
            ∙ f e))
      h

short_take : (n : ℕ) (xs : List DocumentJob) → length (take n xs) < n → length xs ≤ n
short_take zero xs h = absurd (omega arith)
short_take (suc n) [] h = omega arith
short_take (suc n) (x ∷ xs) h = omega (arith, short_take n xs (omega arith))

-- a batch that is not full has all old jobs
pub batch_all :
    (cutoff n : ℕ) (jobs : List DocumentJob)
    → length (take n (old_jobs cutoff jobs)) < n
    → All (λ r. is_old cutoff r ≡ true → has_id (take n (old_jobs cutoff jobs)) r ≡ true) jobs
batch_all cutoff n jobs h =
    let all : take n (old_jobs cutoff jobs) ≡ old_jobs cutoff jobs =
      take-all n (old_jobs cutoff jobs) (short_take n (old_jobs cutoff jobs) h) in
    rw all (
      All-weaken _ _ jobs
        (λ r f e.
          any-sort_by (λ a b. asc a.completed_at b.completed_at) (λ j. j.id == r.id)
            (select (is_old cutoff) jobs)
          ∙ f e)
        (has_id-select (is_old cutoff) jobs))

pub no_any :
    (p : DocumentJob → Bool) (xs : List DocumentJob)
    → All (λ r. p r ≡ true → false ≡ true) xs
    → any p xs ≡ false
no_any p [] h = refl
no_any p (x ∷ xs) h = elim (Bool-cases (p x)) [
  | inl e ↦ absurd (cc (h.0 e))
  | inr e ↦ rw e (no_any p xs h.1)
]

any-select_twice :
    (f p q : DocumentJob → Bool) (xs : List DocumentJob)
    → any f (select p xs) ≡ false
    → any f (select p (select q xs)) ≡ false
any-select_twice f p q [] h = refl
any-select_twice f p q (x ∷ xs) h = go (p x) (q x) refl h (any-select_twice f p q xs)
  where
    go :
        (a b : Bool)
        → p x ≡ a
        → any f (if a then x ∷ select p xs else select p xs) ≡ false
        → (any f (select p xs) ≡ false → any f (select p (select q xs)) ≡ false)
        → any f (select p (if b then x ∷ select q xs else select q xs)) ≡ false
    go true true e k rec = rw e (ground (arith, rec))
    go true false e k rec = ground (arith, rec)
    go false true e k rec = rw e (rec k)
    go false false e k rec = rec k

-- the tables after one batch
abbrev pub without : List DocumentJob → Db → Db
without batch db = record db {
  jobs = select (λ r. not (has_id batch r)) db.jobs;
  artifacts =
      update (λ a. belongs_to batch a.document_job_id) (λ a. record a { document_job_id = none })
        db.artifacts;
}

module _ (cutoff n : ℕ) (db : Db) where
  pub empty_batch :
      take n (old_jobs cutoff db.jobs) ≡ [] → cleanup_batch cutoff n db ≡ ok ((0, true), db)
  unfolding cleanup_batch list_failed_before delete_batch
  empty_batch e = rw e refl

  pub full_batch :
      (j : DocumentJob) (js : List DocumentJob)
      → take n (old_jobs cutoff db.jobs) ≡ j ∷ js
      → cleanup_batch cutoff n db
        ≡ ok ((length (j ∷ js), ltb (length (j ∷ js)) n), without (j ∷ js) db)
  unfolding cleanup_batch list_failed_before delete_batch delete_jobs
  full_batch j js e = rw e refl

pub KeysTell-without :
    (cutoff : ℕ) (batch jobs : List DocumentJob)
    → KeysTell cutoff jobs jobs
    → KeysTell cutoff
        (select (λ r. not (has_id batch r)) jobs)
        (select (λ r. not (has_id batch r)) jobs)
KeysTell-without cutoff batch jobs h =
    All-select
      (λ r.
        is_old cutoff r ≡ false
        → has_id (select (is_old cutoff) (select (λ s. not (has_id batch s)) jobs)) r ≡ false)
      (λ r. not (has_id batch r)) jobs
      (All-weaken _ _ jobs
        (λ r f e.
          any-select_twice (λ j. j.id == r.id) (is_old cutoff) (λ s. not (has_id batch s)) jobs
            (f e))
        h)

-- a batch with a job in it leaves fewer old jobs
pub fewer :
    (cutoff n : ℕ) (j : DocumentJob) (js jobs : List DocumentJob)
    → take n (old_jobs cutoff jobs) ≡ j ∷ js
    → length (select (is_old cutoff) (select (λ r. not (has_id (j ∷ js) r)) jobs))
      < length (select (is_old cutoff) jobs)
fewer cutoff n j js jobs e =
    let found : All (λ k. any (λ r. is_old cutoff r && (k.id == r.id)) jobs ≡ true)
        (take n (old_jobs cutoff jobs)) =
      All-take _ n (old_jobs cutoff jobs) (
        All-sort_by _ (λ a b. asc a.completed_at b.completed_at) (select (is_old cutoff) jobs)
          (select-found (is_old cutoff) jobs)) in
    let first : All (λ k. any (λ r. is_old cutoff r && (k.id == r.id)) jobs ≡ true) (j ∷ js) =
      subst (All _) e found in
    select-drop (is_old cutoff) (has_id (j ∷ js)) jobs (
      any_mono (λ r. is_old cutoff r && (j.id == r.id)) (λ r. is_old cutoff r && has_id (j ∷ js) r)
        jobs (λ r h. ground (arith, h)) first.0)
