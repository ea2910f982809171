-- ===== src/Templates/Responses.antt =====
-- The responses of app/services/template_service.py, with their DTOs of app/dtos/template.py.
use Prim.Native.String.{String}
use mathlib.Core.List.{reverse}
use document_generation_anek.Prelude.{ℕ, Bool, Option, none, some, List, map, length, find}
use document_generation_anek.Text.{Text}
use document_generation_anek.Schema.{TemplateSchemaResponse}
use document_generation_anek.Models.{Template, TemplateStatus, TemplateVersion}

pub record TemplateVersionSummary : Type 0 where
  pub id : ℕ
  pub version : Text
  pub is_current : Bool
  pub is_published : Bool

pub record TemplateResponse : Type 0 where
  pub id : ℕ
  pub organization_id : ℕ
  pub name : Text
  pub code : Text
  pub status : TemplateStatus
  pub description : Option Text
  pub current_version : Option TemplateVersionSummary

pub record TemplateVersionResponse : Type 0 where
  pub id : ℕ
  pub version : Text
  pub is_current : Bool
  pub is_published : Bool
  pub original_filename : Text
  pub storage_key : Text
  pub checksum : Option String
  pub notes : Option Text
  pub render_strategy : String
  pub imported_binding_count : ℕ
  pub schema_payload : TemplateSchemaResponse

pub record TemplateDetailResponse : Type 0 where
  pub template : TemplateResponse
  pub versions : List TemplateVersionSummary
  pub current_version_details : Option TemplateVersionResponse

pub record TemplateIngestionResponse : Type 0 where
  pub template : TemplateResponse
  pub version : TemplateVersionResponse

unfoldable pub version_summary : TemplateVersion → TemplateVersionSummary
version_summary v = record {
  id = v.id;
  version = v.version;
  is_current = v.is_current;
  is_published = v.is_published;
}

abbrev pub map_option : {A B : Type 0} → (A → B) → Option A → Option B
map_option f none = none
map_option f (some a) = some (f a)

-- `next((version for version in template.versions if version.is_current), None)`
abbrev pub current_among : List TemplateVersion → Option TemplateVersion
current_among versions = find (λ v. v.is_current) versions

unfoldable pub template_response : Template → Option TemplateVersion → TemplateResponse
template_response t current = record {
  id = t.id;
  organization_id = t.organization_id;
  name = t.name;
  code = t.code;
  status = t.status;
  description = t.description;
  current_version = map_option version_summary current;
}

-- TemplateService._serialize_template
unfoldable pub serialize_template : Template → List TemplateVersion → TemplateResponse
serialize_template t versions = template_response t (current_among versions)

unfoldable pub version_response : TemplateSchemaResponse → TemplateVersion → TemplateVersionResponse
version_response schema v = record {
  id = v.id;
  version = v.version;
  is_current = v.is_current;
  is_published = v.is_published;
  original_filename = v.original_filename;
  storage_key = v.storage_key;
  checksum = v.checksum;
  notes = v.notes;
  render_strategy = v.render_strategy;
  imported_binding_count = length v.import_bindings;
  schema_payload = schema;
}

-- TemplateService._serialize_template_detail; the versions, newest first
unfoldable pub serialize_template_detail : Template → List TemplateVersion → TemplateDetailResponse
serialize_template_detail t versions = record {
  template = template_response t (current_among versions);
  versions = map version_summary (reverse versions);
  current_version_details =
      map_option (λ v. version_response v.variable_schema v) (current_among versions);
}

-- TemplateService._build_ingestion_response
unfoldable pub build_ingestion_response :
    Template → TemplateVersion → TemplateSchemaResponse → TemplateIngestionResponse
build_ingestion_response t v schema = record {
  template = template_response t (some v);
  version = version_response schema v;
}
