-- ===== src/Models.antt =====
-- app/models: the enumerations and the rows of the tables. A UUID is a number, a timestamp a number
-- of seconds, and columns that no modelled operation reads or writes (names, currencies) are left out.
use Prim.Native.String.{String}
use document_generation_anek.Prelude.{ℕ, Bool, Option, List}
use document_generation_anek.Calendar.{Date}
use document_generation_anek.Text.{Text}
use document_generation_anek.Json.{Value, Dict}
use document_generation_anek.Schema.{
  TemplateSchemaResponse, TemplateComponentSchemaItem, ImportBinding,
}
use document_generation_anek.Constructor.{DocumentConstructor}

pub data DocumentJobStatus : Type 0 where
  queued processing completed failed : DocumentJobStatus

pub data TemplateStatus : Type 0 where
  draft active archived : TemplateStatus

pub data ArtifactKind : Type 0 where
  docx pdf preview source : ArtifactKind

pub data UserRole : Type 0 where
  admin manager operator viewer : UserRole

pub data AuditAction : Type 0 where
  template_created template_version_created : AuditAction
  document_job_created document_job_completed document_job_failed document_job_replayed :
      AuditAction
  artifact_created cache_invalidated : AuditAction
  api_key_created api_key_rotated api_key_revoked api_key_disabled user_disabled : AuditAction

pub record Organization : Type 0 where
  pub id : ℕ
  pub code : Text
  pub is_active : Bool

pub record PlanDefinition : Type 0 where
  pub id : ℕ
  pub code : String
  pub monthly_generation_cap : ℕ
  pub max_templates : ℕ
  pub storage_quota_bytes : ℕ
  pub monthly_price_cents : ℕ
  pub audit_retention_days : ℕ
  pub signature_support : Bool
  pub is_active : Bool

pub record OrganizationPlan : Type 0 where
  pub id : ℕ
  pub organization_id : ℕ
  pub plan_definition_id : ℕ
  pub pending_plan_definition_id : Option ℕ
  pub status : String
  pub current_period_start : Date
  pub current_period_end : Date

pub record OrganizationUsageMeter : Type 0 where
  pub id : ℕ
  pub organization_id : ℕ
  pub period_start : Date
  pub period_end : Date
  pub generation_count : ℕ
  pub storage_bytes : ℕ
  pub template_count : ℕ
  pub user_count : ℕ
  pub premium_feature_usage : List (Text × ℕ)

pub record BillingInvoice : Type 0 where
  pub id : ℕ
  pub organization_id : ℕ
  pub organization_plan_id : ℕ
  pub plan_definition_id : ℕ
  pub plan_code : String
  pub period_start : Date
  pub period_end : Date
  pub subtotal_cents : ℕ
  pub generation_count : ℕ
  pub template_count : ℕ
  pub user_count : ℕ
  pub storage_bytes : ℕ
  pub premium_feature_usage : List (Text × ℕ)
  pub issued_at : ℕ
  pub due_at : ℕ

pub record Template : Type 0 where
  pub id : ℕ
  pub organization_id : ℕ
  pub name : Text
  pub code : Text
  pub description : Option Text
  pub status : TemplateStatus

pub record TemplateVersion : Type 0 where
  pub id : ℕ
  pub template_id : ℕ
  pub created_by_user_id : Option ℕ
  pub version : Text
  pub original_filename : Text
  pub storage_key : Text
  pub size_bytes : Option ℕ
  pub checksum : Option String
  pub variable_schema : TemplateSchemaResponse
  pub component_schema : List TemplateComponentSchemaItem
  pub render_strategy : String
  pub import_bindings : List ImportBinding
  pub notes : Option Text
  pub is_published : Bool
  pub is_current : Bool

pub record OrganizationMembership : Type 0 where
  pub id : ℕ
  pub organization_id : ℕ
  pub role : UserRole
  pub is_active : Bool
  pub is_default : Bool
  pub organization : Option Organization

pub record User : Type 0 where
  pub id : ℕ
  pub email : String
  pub password_hash : String
  pub is_active : Bool
  pub last_login_at : Option ℕ
  pub memberships : List OrganizationMembership

pub record AuthSession : Type 0 where
  pub id : ℕ
  pub user_id : ℕ
  pub refresh_token_hash : String
  pub expires_at : ℕ
  pub revoked_at : Option ℕ
  pub last_used_at : Option ℕ

pub record ApiKey : Type 0 where
  pub id : ℕ
  pub organization_id : ℕ
  pub name : String
  pub key_prefix : Text
  pub hashed_key : String
  pub scopes : List String
  pub status : String
  pub rotated_at : Option ℕ
  pub last_used_at : Option ℕ
  pub revoked_at : Option ℕ

pub record ApiKeyUsageLog : Type 0 where
  pub api_key_id : ℕ
  pub organization_id : ℕ
  pub scope : String
  pub method : String
  pub path : String
  pub status_code : ℕ
  pub rate_limited : Bool

-- the request as it was stored: a constructor request with the version that it named, if it named one, or one with `generation_mode` "docx_import"
pub data JobInput : Type 0 where
  constructor_input : Option ℕ → DocumentConstructor → Dict Value → JobInput
  import_input : Dict Value → JobInput

pub record DocumentJob : Type 0 where
  pub id : ℕ
  pub organization_id : ℕ
  pub template_id : ℕ
  pub template_version_id : ℕ
  pub requested_by_user_id : Option ℕ
  pub status : DocumentJobStatus
  pub input_payload : JobInput
  pub normalized_payload : Option (Dict Value)
  pub cache_key : Option String
  pub error_message : Option String
  pub started_at : Option ℕ
  pub completed_at : Option ℕ

pub record DocumentArtifact : Type 0 where
  pub id : ℕ
  pub organization_id : ℕ
  pub document_job_id : Option ℕ
  pub template_version_id : ℕ
  pub kind : ArtifactKind
  pub file_name : Text
  pub content_type : String
  pub storage_key : Text
  pub checksum : Option String
  pub size_bytes : Option ℕ
  pub is_cached : Bool
  pub expires_at : Option ℕ

pub record AuditLog : Type 0 where
  pub organization_id : ℕ
  pub user_id : Option ℕ
  pub action : AuditAction
  pub entity_id : Option ℕ

abbrev pub is_status : DocumentJobStatus → DocumentJobStatus → Bool
is_status = elim [
  | queued ↦ λ t. elim t [ queued ↦ Bool.true | _ ↦ Bool.false ]
  | processing ↦ λ t. elim t [ processing ↦ Bool.true | _ ↦ Bool.false ]
  | completed ↦ λ t. elim t [ completed ↦ Bool.true | _ ↦ Bool.false ]
  | failed ↦ λ t. elim t [ failed ↦ Bool.true | _ ↦ Bool.false ]
]
