-- ===== src/Maintenance.antt =====
-- `_cleanup_failed_jobs` of app/services/maintenance_service.py: failed jobs past their retention are deleted in batches,
-- one transaction for each.
pub mod Selections
pub mod Cleanup
pub mod Retention
mod Tests
use document_generation_anek.Prelude.{
  ℕ, zero, suc, ◌+◌, Bool, true, false, List, [], ◌∷◌, length, ltb, if◌then◌else◌,
}
use document_generation_anek.Models.{DocumentJob}
use document_generation_anek.Result.{Result, ok, err, fault}
use document_generation_anek.Database.{Db, Tx, pure, raise, ◌>>=◌, ◌>>◌}
use document_generation_anek.Jobs.{list_failed_before, delete_jobs}

-- The body of one transaction: the jobs deleted, and whether the loop stops. The early `break` of an empty batch is in it.
unfoldable pub delete_batch : List DocumentJob → ℕ → Tx (ℕ × Bool)
unfolding delete_jobs
delete_batch [] batch_size = pure (0, true)
delete_batch (j ∷ jobs) batch_size = do
  deleted ← delete_jobs (j ∷ jobs)
  pure (deleted, ltb deleted batch_size)

unfoldable pub cleanup_batch : ℕ → ℕ → Tx (ℕ × Bool)
unfolding list_failed_before delete_batch
cleanup_batch cutoff batch_size = do
  jobs ← list_failed_before cutoff batch_size
  delete_batch jobs batch_size

-- The `while True` loop; `fault` is raised where the fuel runs out. Each round commits.
unfoldable pub cleanup_failed_jobs : ℕ → ℕ → ℕ → ℕ → Tx ℕ
unfolding cleanup_batch
cleanup_failed_jobs zero cutoff batch_size total = raise fault
cleanup_failed_jobs (suc fuel) cutoff batch_size total = cleanup_batch cutoff batch_size >>= λ r.
    (elim r.1 [
      | true ↦ pure (total + r.0)
      | false ↦ cleanup_failed_jobs fuel cutoff batch_size (total + r.0)
    ])
