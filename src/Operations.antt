-- ===== src/Operations.antt =====
-- app/services/operations_service.py: the operations of an administrator on jobs, cached files and users.
pub mod LockOut
pub mod Replay
mod Tests
use Prim.Native.String.{String}
use document_generation_anek.Prelude.{
  ℕ, Bool, true, false, not, Option, none, some, List, [], ◌∷◌, any, length, map, ◌==◌,
  if◌then◌else◌,
}
use package.text.Mathlib.Text.{◌==◌ as str_eq}
use document_generation_anek.Models.{
  User, DocumentJob, DocumentArtifact, cache_invalidated, user_disabled,
}
use document_generation_anek.Result.{not_found, conflict}
use document_generation_anek.Database.{Db, Tx, pure, or_raise, raise_if, ◌>>=◌, ◌>>◌}
use document_generation_anek.Audit.{log_event}
use document_generation_anek.Jobs.{get_by_id}
use document_generation_anek.Artifacts.{expire_for_cache_key}
use document_generation_anek.Auth.Service.{user_by_id, set_active, revoke_all_for_user}

pub record CacheInvalidationResponse : Type 0 where
  pub organization_id : ℕ
  pub task_id : ℕ
  pub cache_key : Option String
  pub invalidated_artifact_count : ℕ
  pub invalidated_at : ℕ

-- `if job.cache_key`
abbrev pub expire_if : DocumentJob → ℕ → Option String → Tx (List DocumentArtifact)
expire_if job now none = pure []
expire_if job now (some key) = elim (str_eq key "") [
  | true ↦ pure []
  | false ↦ expire_for_cache_key job.organization_id job.template_version_id key now
]

-- OperationsService.invalidate_cache; the job was found in the organization
unfoldable pub invalidate_cache : ℕ → ℕ → ℕ → ℕ → Tx CacheInvalidationResponse
invalidate_cache now organization_id job_id current_user_id = do
  found ← get_by_id job_id (some organization_id)
  job ← or_raise found not_found
  invalidated_artifacts ← expire_if job now job.cache_key
  log_event organization_id (some current_user_id) cache_invalidated (some job.id)
  pure (record {
    organization_id = organization_id;
    task_id = job.id;
    cache_key = job.cache_key;
    invalidated_artifact_count = length invalidated_artifacts;
    invalidated_at = now;
  })

pub record UserDisableResponse : Type 0 where
  pub id : ℕ
  pub organization_id : ℕ
  pub email : String
  pub revoked_session_count : ℕ

-- the user, where a membership ties them to the organization
abbrev pub member_of : ℕ → Option User → Option User
member_of organization_id none = none
member_of organization_id (some user) =
    if any (λ m. m.organization_id == organization_id) user.memberships then some user else none

-- OperationsService.disable_user
unfoldable pub disable_user : ℕ → ℕ → ℕ → ℕ → Tx UserDisableResponse
disable_user now organization_id user_id current_user_id = do
  raise_if (user_id == current_user_id) conflict
  found ← user_by_id user_id
  user ← or_raise (member_of organization_id found) not_found
  set_active user false
  revoked_session_count ← revoke_all_for_user now user.id
  log_event organization_id (some current_user_id) user_disabled (some user.id)
  pure (record {
    id = user.id;
    organization_id = organization_id;
    email = user.email;
    revoked_session_count = revoked_session_count;
  })
