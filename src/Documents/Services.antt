-- ===== src/Documents/Services.antt =====
-- What the services of app/services/document_service.py and app/services/generation stand on: settings, the clock, and the
-- libraries. The composer and the PDF renderer of this repository are taken as calls that return bytes or raise.
use Prim.Native.String.{String}
use document_generation_anek.Prelude.{ℕ, Bool, Option, List}
use document_generation_anek.Text.{Text}
use document_generation_anek.Json.{Value, Dict}
use document_generation_anek.Constructor.{DocumentConstructor}
use document_generation_anek.Result.{Error, Result}
use document_generation_anek.Billing.Renewal.{Clock}
use document_generation_anek.Docx.{Document}
use document_generation_anek.Storage.{Bytes, MinioClient, StorageSettings}
use document_generation_anek.Documents.Mapper.{ResolvedDocument}

-- `send` is the broker's `apply_async`, which shares the outside world with the object store; `save` writes a package
-- after the runs of some paragraphs, by their identity, were given new texts; `now` is the time of the call.
pub record Services (O : Type 0) : Type 0 where
  pub client : MinioClient O
  pub send : ℕ → O → Result (Unit {0}) × O
  pub storage_settings : StorageSettings
  pub clock : Clock
  pub now : ℕ
  pub artifact_retention : ℕ
  pub stale_job_timeout : ℕ
  pub max_upload_size_bytes : ℕ
  pub max_image_size_bytes : ℕ
  pub locked : ℕ → Bool
  pub uuid_text : ℕ → Text
  pub sha256 : Bytes → String
  pub digest : ℕ → DocumentConstructor → Dict Value → String
  pub import_digest : String → String → Dict (Option Text) → String
  pub uuid_string : ℕ → String
  pub error_text : Error → String
  pub load_docx_document : Bytes → Result Document
  pub save : Document → List (ℕ × List Text) → Bytes
  pub compose : ResolvedDocument → Result Bytes
  pub render_pdf : ResolvedDocument → Result Bytes
