-- ===== src/Maintenance/Retention.antt =====
-- The loop of `_cleanup_failed_jobs`: it ends, and what it leaves.
use mathlib.Core.Path.{subst}
use document_generation_anek.Prelude.{
  ℕ, zero, suc, ◌+◌, ◌<◌, ◌≡◌, refl, ap, ◌∙◌, true, false, not, List, [], ◌∷◌, All, any, select,
  take, length, ltb, Bool-cases, inl, inr, arith,
}
use document_generation_anek.Models.{DocumentJob}
use document_generation_anek.Result.{ok}
use document_generation_anek.Database.{Db}
use document_generation_anek.Jobs.{has_id}
use document_generation_anek.Maintenance.{cleanup_batch, cleanup_failed_jobs}
use document_generation_anek.Maintenance.Selections.{select-none, select_rest}
use document_generation_anek.Maintenance.Cleanup.{
  is_old, old_jobs, KeysTell, batch_old, batch_all, no_any, without, empty_batch, full_batch,
  KeysTell-without, fewer,
}

-- what the loop has to reach: no old job, and every other job as it was
abbrev pub IsClean : ℕ → Db → Db → Type 0
IsClean cutoff db db' =
    (any (is_old cutoff) db'.jobs ≡ false)
    × (select (λ r. not (is_old cutoff r)) db'.jobs ≡ select (λ r. not (is_old cutoff r)) db.jobs)

abbrev Ends : ℕ → ℕ → ℕ → ℕ → Db → Type 0
Ends fuel cutoff n total db =
    (count : ℕ) × (db' : Db) × (cleanup_failed_jobs fuel cutoff n total db ≡ ok (count, db'))
    × IsClean cutoff db db'

-- one round, after its batch
round-stop :
    (fuel cutoff n total deleted : ℕ) (db d : Db)
    → cleanup_batch cutoff n db ≡ ok ((deleted, true), d)
    → cleanup_failed_jobs (suc fuel) cutoff n total db ≡ ok (total + deleted, d)
unfolding cleanup_failed_jobs
round-stop fuel cutoff n total deleted db d e = rw e refl

round-go :
    (fuel cutoff n total deleted : ℕ) (db d : Db)
    → cleanup_batch cutoff n db ≡ ok ((deleted, false), d)
    → cleanup_failed_jobs (suc fuel) cutoff n total db
      ≡ cleanup_failed_jobs fuel cutoff n (total + deleted) d
unfolding cleanup_failed_jobs
round-go fuel cutoff n total deleted db d e = rw e refl

loop-IsClean :
    (fuel cutoff n total : ℕ) (db : Db)
    → 0 < n
    → KeysTell cutoff db.jobs db.jobs
    → length (select (is_old cutoff) db.jobs) < fuel
    → Ends fuel cutoff n total db
loop-IsClean zero cutoff n total db positive keys enough = absurd (omega arith)
loop-IsClean (suc fuel) cutoff n total db positive keys enough =
    batch (λ t d keys' less. loop-IsClean fuel cutoff n t d positive keys' less)
      (take n (old_jobs cutoff db.jobs)) refl
  where
    batch :
        ((t : ℕ) (d : Db)
          → KeysTell cutoff d.jobs d.jobs
          → length (select (is_old cutoff) d.jobs) < fuel
          → Ends fuel cutoff n t d)
        → (b : List DocumentJob) → take n (old_jobs cutoff db.jobs) ≡ b
        → Ends (suc fuel) cutoff n total db
    batch rec [] e =
        let all : All (λ r. is_old cutoff r ≡ true → false ≡ true) db.jobs =
          subst (λ b. All (λ r. is_old cutoff r ≡ true → has_id b r ≡ true) db.jobs) e
            (batch_all cutoff n db.jobs (rw e positive)) in
        (
          total + 0,
          db,
          round-stop fuel cutoff n total 0 db db (empty_batch cutoff n db e),
          (no_any (is_old cutoff) db.jobs all, refl),
        )
    batch rec (j ∷ js) e =
        let kept = select_rest (is_old cutoff) (has_id (j ∷ js)) db.jobs (
          subst (λ b. All (λ r. is_old cutoff r ≡ false → has_id b r ≡ false) db.jobs) e
            (batch_old cutoff n db.jobs keys)) in
        let ran = full_batch cutoff n db j js e in
        elim (Bool-cases (ltb (length (j ∷ js)) n)) [
          | inl short ↦
              let all =
                subst (λ b. All (λ r. is_old cutoff r ≡ true → has_id b r ≡ true) db.jobs) e
                  (batch_all cutoff n db.jobs (rw e (ground arith))) in
              let ran' : cleanup_batch cutoff n db
                  ≡ ok ((length (j ∷ js), true), without (j ∷ js) db) =
                ran ∙ ap (λ s. ok ((length (j ∷ js), s), without (j ∷ js) db)) short in
              (
                total + length (j ∷ js),
                without (j ∷ js) db,
                round-stop fuel cutoff n total (length (j ∷ js)) db (without (j ∷ js) db) ran',
                (select-none (is_old cutoff) (has_id (j ∷ js)) db.jobs all, kept),
              )
          | inr full ↦
              let ran' : cleanup_batch cutoff n db
                  ≡ ok ((length (j ∷ js), false), without (j ∷ js) db) =
                ran ∙ ap (λ s. ok ((length (j ∷ js), s), without (j ∷ js) db)) full in
              let less = fewer cutoff n j js db.jobs e in
              let (count, db', run, (clean, rest)) =
                rec (total + length (j ∷ js)) (without (j ∷ js) db)
                  (KeysTell-without cutoff (j ∷ js) db.jobs keys) (omega arith) in
              (
                count,
                db',
                round-go fuel cutoff n total (length (j ∷ js)) db (without (j ∷ js) db) ran' ∙ run,
                (clean, rest ∙ kept),
              )
        ]

-- For a positive batch size, and where no other job has the primary key of an old one, the cleanup ends, in at most as
-- many batches as there are old failed jobs and one more: no failed job that completed before the cutoff is left, and
-- every other job is kept as it was, in its order.
pub cleanup_failed_jobs-IsClean :
    (cutoff batch_size : ℕ) (db : Db)
    → 0 < batch_size
    → KeysTell cutoff db.jobs db.jobs
    → (count : ℕ) × (db' : Db) × (cleanup_failed_jobs
          (suc (length (select (is_old cutoff) db.jobs)))
          cutoff
          batch_size
          0
          db
        ≡ ok (count, db'))
      × IsClean cutoff db db'
cleanup_failed_jobs-IsClean cutoff batch_size db positive keys =
    loop-IsClean (suc (length (select (is_old cutoff) db.jobs))) cutoff batch_size 0 db positive
      keys (omega arith)
