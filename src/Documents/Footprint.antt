-- ===== src/Documents/Footprint.antt =====
-- Storing the generated files does not write to the jobs.
use Prim.Native.String.{String}
use document_generation_anek.Prelude.{ℕ, refl, Option, none, some, List, length}
use document_generation_anek.Prelude.Int.{pos}
use document_generation_anek.Text.{Text, codes}
use document_generation_anek.Models.{ArtifactKind, DocumentJob, DocumentArtifact, artifact_created}
use document_generation_anek.Database.{Db, Tx}
use document_generation_anek.Database.Keeps.{ap-Keeps}
use document_generation_anek.Audit.{log_event}
use document_generation_anek.Artifacts.{create_artifact}
use document_generation_anek.Billing.Limits.{record_storage_usage}
use document_generation_anek.Billing.Footprint.{beside, IsMetering, record_storage-IsMetering}
use document_generation_anek.Storage.{Bytes, upload_generated_artifact}
use document_generation_anek.Storage.Tables.{upload_generated_artifact-KeepsDb}
use document_generation_anek.World.{Io, pure, session}
use document_generation_anek.World.Keeps.{Leaves, session-Leaves, KeepsDb-Leaves, >>=-Leaves}
use document_generation_anek.Documents.Resolver.{ResolvedTemplateContext}
use document_generation_anek.Documents.Services.{Services}
use document_generation_anek.Documents.Stored.{
  insert_artifact, record_artifact, generated_row, store_generated, store_pdf, artifact_name,
  size_or,
}
use document_generation_anek.Documents.Processing.{store_pdf_if}

abbrev pub jobs_of : Db → List DocumentJob
jobs_of db = db.jobs

abbrev pub KeepsJobs : {O A : Type 0} → Io O A → Type 0
KeepsJobs m = Leaves jobs_of m

pub metering-KeepsJobs : {O A : Type 0} (m : Tx A) → IsMetering m → KeepsJobs {O = O} (session m)
metering-KeepsJobs m h = session-Leaves jobs_of m (ap-Keeps beside jobs_of m h)

module _ {O : Type 0} (s : Services O) where
  record_artifact-KeepsJobs :
      (organization_id : ℕ) (user_id : Option ℕ) (size : ℕ) (make : ℕ → DocumentArtifact)
      → KeepsJobs (record_artifact s organization_id user_id size make)
  unfolding record_artifact insert_artifact create_artifact log_event
  record_artifact-KeepsJobs organization_id user_id size make =
      >>=-Leaves jobs_of {B = DocumentArtifact} (session (insert_artifact make)) _ (λ w. refl)
        λ a.
          >>=-Leaves jobs_of {B = DocumentArtifact}
            (session (log_event a.organization_id user_id artifact_created (some a.id))) _
            (λ w. refl)
            λ _.
              >>=-Leaves jobs_of {B = DocumentArtifact}
                (session (record_storage_usage s.clock organization_id (pos size))) (λ _. pure a)
                (metering-KeepsJobs (record_storage_usage s.clock organization_id (pos size))
                  (record_storage-IsMetering s.clock organization_id (pos size)))
                λ _ w. refl

  pub store_generated-KeepsJobs :
      (kind : ArtifactKind) (extension : Text) (t : String) (context : ResolvedTemplateContext)
      (job_id : ℕ) (user_id : Option ℕ) (content : Bytes)
      → KeepsJobs (store_generated s kind extension t context job_id user_id content)
  unfolding store_generated
  store_generated-KeepsJobs kind extension t context job_id user_id content =
      let name = artifact_name s context extension in
      >>=-Leaves jobs_of {B = DocumentArtifact}
        (upload_generated_artifact s.client s.storage_settings context.organization_code
          (s.uuid_text job_id) name content t)
        _
        (KeepsDb-Leaves jobs_of
          (upload_generated_artifact s.client s.storage_settings context.organization_code
            (s.uuid_text job_id) name content t)
          (upload_generated_artifact-KeepsDb s.client s.storage_settings context.organization_code
            (s.uuid_text job_id) name content t))
        λ stored.
          record_artifact-KeepsJobs context.organization_id user_id
            (size_or stored.size_bytes (length content))
            (generated_row s context job_id kind name stored (s.sha256 content))

  pub store_pdf_if-KeepsJobs :
      (context : ResolvedTemplateContext) (job : DocumentJob) (content : Option Bytes)
      → KeepsJobs (store_pdf_if s context job content)
  unfolding store_pdf
  store_pdf_if-KeepsJobs context job none = λ w. refl
  store_pdf_if-KeepsJobs context job (some content) =
      >>=-Leaves jobs_of {B = Unit {0}}
        (store_pdf s context job.id job.requested_by_user_id content) (λ _. pure tt)
        (store_generated-KeepsJobs _ (codes ".pdf") "application/pdf" context job.id
          job.requested_by_user_id content)
        λ _ w. refl
