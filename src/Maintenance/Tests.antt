-- ===== src/Maintenance/Tests.antt =====
-- An example of the cleanup of failed jobs.
use document_generation_anek.Prelude.{ℕ, suc, ◌≡◌, refl, some, [], ◌∷◌, length, select, arith}
use document_generation_anek.Models.{failed, queued, DocumentJob}
use document_generation_anek.Result.{ok}
use document_generation_anek.Database.{Db}
use document_generation_anek.Fixtures.{empty, job_row}
use document_generation_anek.Maintenance.{cleanup_failed_jobs}
use document_generation_anek.Maintenance.Cleanup.{is_old}
use document_generation_anek.Maintenance.Retention.{IsClean, cleanup_failed_jobs-IsClean}

abbrev old_row : ℕ → DocumentJob
old_row id = record (job_row id failed) { completed_at = some 3 }

-- three old failed jobs around one that is queued
abbrev full : Db
full = record empty { jobs = old_row 1 ∷ old_row 2 ∷ job_row 5 queued ∷ old_row 3 ∷ [] }

cleanup_failed_jobs-IsClean_example :
    (count : ℕ) × (db : Db) × (cleanup_failed_jobs
        (suc (length (select (is_old 10) full.jobs)))
        10
        2
        0
        full
      ≡ ok (count, db))
    × IsClean 10 full db
cleanup_failed_jobs-IsClean_example =
    cleanup_failed_jobs-IsClean 10 2 full (omega arith)
      ((λ h. absurd (cc)), ((λ h. absurd (cc)), ((λ h. refl), ((λ h. absurd (cc)), tt))))
