-- ===== src/Templates/Ingestion.antt =====
-- app/services/template_service.py: `upload_template` and `register_template`, which add a version of a template.
pub mod Leftovers
use Prim.Native.String.{String}
use package.text.Mathlib.Text.{◌==◌ as str_eq}
use document_generation_anek.Prelude.{
  ℕ, Bool, true, false, Option, none, some, List, [], ◌∷◌, length, find, is_some, ◌==◌,
}
use document_generation_anek.Prelude.Int.{pos}
use document_generation_anek.Text.{Text, is_space, strip}
use document_generation_anek.Schema.{TemplateSchemaResponse}
use document_generation_anek.Models.{
  Organization, Template, TemplateStatus, TemplateVersion, active,
}
use document_generation_anek.Result.{Error, Result, not_found, validation, conflict}
use document_generation_anek.Database.{Db, Tx, or_raise as or_raise_tx}
use document_generation_anek.Billing.Store.{organization_by_id}
use document_generation_anek.Billing.Limits.{
  enforce_storage_delta_allowed, enforce_template_creation_allowed, record_storage_usage,
  sync_template_count,
}
use document_generation_anek.Storage.{
  Bytes, StorageObject, upload_template as put_template, download_bytes, delete_object,
}
use document_generation_anek.World.{
  Io, pure, raise, lift, or_raise, raise_if, session, transaction, transaction_in_two, ◌>>=◌, ◌>>◌,
}
use document_generation_anek.Security.{validate_template_storage_key}
use document_generation_anek.Security.Uploads.{Upload, validate_template_upload}
use document_generation_anek.Templates.{
  get_by_code, create_template, save_template, get_by_template_and_version, add_current_version,
}
use document_generation_anek.Templates.Code.{normalize_code}
use document_generation_anek.Templates.Extraction.{extract_schema}
use document_generation_anek.Templates.Responses.{
  TemplateIngestionResponse, build_ingestion_response,
}
use document_generation_anek.Templates.Service.{TemplateServices, validated}

-- the arguments of `upload_template`, and TemplateRegisterRequest
pub record UploadRequest : Type 0 where
  pub organization_id : ℕ
  pub name : Text
  pub code : Text
  pub version : Text
  pub description : Option Text
  pub notes : Option Text
  pub current_user_id : ℕ
  pub publish : Bool

pub record Registration : Type 0 where
  pub storage_key : Text
  pub original_filename : Text

-- what the calls before the write of the version found
pub record Prepared : Type 0 where
  pub template : Template
  pub stored_key : Text

unfoldable pub template_row : ℕ → Text → Text → Option Text → ℕ → Template
template_row organization_id name code description id = record {
  id = id;
  organization_id = organization_id;
  name = strip is_space name;
  code = code;
  description = description;
  status = active;
}

unfoldable pub version_row :
    UploadRequest → ℕ → Text → Text → ℕ → String → TemplateSchemaResponse → ℕ → TemplateVersion
version_row r template_id file_name storage_key size_bytes checksum schema id = record {
  id = id;
  template_id = template_id;
  created_by_user_id = some r.current_user_id;
  version = r.version;
  original_filename = file_name;
  storage_key = storage_key;
  size_bytes = some size_bytes;
  checksum = some checksum;
  variable_schema = schema;
  component_schema = schema.components;
  render_strategy = "constructor";
  import_bindings = [];
  notes = r.notes;
  is_published = r.publish;
  is_current = true;
}

abbrev pub renamed : Text → Option Text → Template → Template
renamed name description t = record t {
  name = strip is_space name;
  description = description;
  status = active;
}

-- `file.content_type or "application/vnd..."`
abbrev pub docx_type : String
docx_type = "application/vnd.openxmlformats-officedocument.wordprocessingml.document"

abbrev pub type_or_docx : Option String → String
type_or_docx none = docx_type
type_or_docx (some t) = elim (str_eq t "") [ true ↦ docx_type | false ↦ t ]

module _ {O : Type 0} (s : TemplateServices O) (r : UploadRequest) where
  abbrev pub create_or_rename : Text → Option Template → Io O Template
  create_or_rename code (some template) =
      session (save_template (renamed r.name r.description) template)
  create_or_rename code none = do
    session (enforce_template_creation_allowed s.clock r.organization_id)
    session (create_template (template_row r.organization_id r.name code r.description))

  -- TemplateService._get_or_create_template
  unfoldable pub get_or_create_template : Io O Template
  get_or_create_template = do
    normalized_code ← lift (normalize_code s.unicode.lower r.code)
    found ← session (get_by_code r.organization_id normalized_code)
    create_or_rename normalized_code found

  -- the template, without a version of the requested name
  unfoldable pub template_for_version : Io O Template
  unfolding get_or_create_template
  template_for_version = do
    template ← get_or_create_template
    existing_version ← session (get_by_template_and_version template.id r.version)
    raise_if (is_some existing_version) conflict
    pure template

  -- the writes at the end of `upload_template` and of `register_template`
  unfoldable pub store_version :
      Text → Bytes → TemplateSchemaResponse → Prepared → Io O TemplateIngestionResponse
  store_version file_name content schema p = do
    version ← session (
        add_current_version p.template.id (
          version_row r p.template.id file_name p.stored_key (length content)
            (s.docx.sha256 content) schema))
    session (record_storage_usage s.clock r.organization_id (pos (length content)))
    session (sync_template_count s.clock r.organization_id)
    pure (build_ingestion_response p.template version schema)

  -- the calls of `upload_template` up to the one that stores the file
  unfoldable pub upload_file : Text → Upload → Io O Prepared
  unfolding template_for_version
  upload_file safe_file_name file = do
    found ← session (organization_by_id r.organization_id)
    organization ← or_raise found not_found
    session (enforce_storage_delta_allowed s.clock r.organization_id (length file.content))
    template ← template_for_version
    stored ←
        put_template s.client s.storage_settings organization.code template.code r.version
          safe_file_name file.content (type_or_docx file.content_type)
    pure (record { template = template; stored_key = stored.key })

  -- `except Exception`: the stored file is deleted, and the error raised again
  unfoldable pub discard_file : Prepared → Error → Io O TemplateIngestionResponse
  discard_file p e = do delete_object s.client p.stored_key; raise e

  unfoldable pub upload_template : Upload → Io O TemplateIngestionResponse
  unfolding transaction_in_two upload_file store_version discard_file
  upload_template file = do
    safe_file_name ← lift (validated s file)
    schema ←
        lift (extract_schema s.docx.is_zipfile s.packages s.unicode safe_file_name file.content)
    transaction_in_two s.commit_answer (upload_file safe_file_name file)
        (store_version safe_file_name file.content schema) discard_file

  unfoldable pub register_template : Registration → Io O TemplateIngestionResponse
  unfolding transaction template_for_version store_version
  register_template file = transaction (do
    found ← session (organization_by_id r.organization_id)
    organization ← or_raise found not_found
    safe_storage_key ← lift (
        validate_template_storage_key s.storage_settings.templates_prefix file.storage_key
          organization.code)
    content ← download_bytes s.client safe_storage_key
    session (enforce_storage_delta_allowed s.clock r.organization_id (length content))
    safe_file_name ← lift (
        validate_template_upload s.docx.is_zipfile s.unicode.lower s.max_upload_size_bytes
          file.original_filename none content)
    schema ← lift (extract_schema s.docx.is_zipfile s.packages s.unicode safe_file_name content)
    template ← template_for_version
    store_version safe_file_name content schema
        (record { template = template; stored_key = safe_storage_key }))
