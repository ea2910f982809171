-- ===== src/Templates/Service.antt =====
-- app/services/template_service.py: the reads, the extraction of a schema, and the import of a stored document.
pub mod Published
use Prim.Native.String.{String}
use package.text.Mathlib.Text.{◌==◌ as str_eq}
use document_generation_anek.Prelude.{
  ℕ, Bool, true, false, not, ◌&&◌, ◌||◌, Option, none, some, List, [], ◌∷◌, map, any, length, find,
  select, ◌==◌,
}
use document_generation_anek.Text.{Text, codes}
use document_generation_anek.Schema.{TemplateSchemaResponse, ImportBinding}
use document_generation_anek.Models.{Template, TemplateVersion, DocumentJob, DocumentArtifact}
use document_generation_anek.Result.{Result, ok, err, not_found, validation, fault}
use document_generation_anek.Database.{Db, Tx, gets, modify}
use document_generation_anek.Billing.Renewal.{Clock}
use document_generation_anek.Storage.{Bytes, MinioClient, StorageSettings, download_bytes}
use document_generation_anek.World.{
  World, Io, pure, lift, or_raise, raise_if, session, transaction, ◌>>=◌, ◌>>◌,
}
use document_generation_anek.Security.Uploads.{Upload, validate_template_upload}
use document_generation_anek.Import.Labels.{Unicode}
use document_generation_anek.Import.Candidates.{DocxLibrary}
use document_generation_anek.Import.Bindings.{
  TemplateImportAnalysisResponse, TemplateImportInspectionResponse, analyze, inspect,
}
use document_generation_anek.Import.Confirmation.{
  ConfirmationItem, SelectionItem, confirm_bindings, templateize_from_selections,
}
use document_generation_anek.Templates.{
  versions_of, list_all, get_by_id, update_schema, update_import_configuration,
}
use document_generation_anek.Templates.Extraction.{Packages, extract_schema}
use document_generation_anek.Templates.Responses.{
  TemplateResponse, TemplateDetailResponse, current_among, serialize_template,
  serialize_template_detail,
}

-- what the service is configured with, and the libraries below it; `commit_answer` is what the database says to the COMMIT of
-- an upload
pub record TemplateServices (O : Type 0) : Type 0 where
  pub client : MinioClient O
  pub storage_settings : StorageSettings
  pub clock : Clock
  pub docx : DocxLibrary
  pub packages : Packages
  pub unicode : Unicode
  pub max_upload_size_bytes : ℕ
  pub commit_answer : Db → Result (Unit {0})

pub record TemplateSchemaExtractionResponse : Type 0 where
  pub organization_id : ℕ
  pub template_id : ℕ
  pub template_version_id : ℕ
  pub schema_payload : TemplateSchemaResponse

pub record TemplateImportConfirmationResponse : Type 0 where
  pub organization_id : ℕ
  pub template_id : ℕ
  pub template_version_id : ℕ
  pub render_strategy : String
  pub schema_payload : TemplateSchemaResponse
  pub confirmed_binding_count : ℕ
  pub bindings : List ImportBinding

-- rows that hold the key of a version that is to be deleted
abbrev pub is_referenced : Db → TemplateVersion → Bool
is_referenced db v =
    any (λ j. j.template_version_id == v.id) db.jobs
    || any (λ a. a.template_version_id == v.id) db.artifacts

abbrev pub is_unpublished_of : ℕ → TemplateVersion → Bool
is_unpublished_of template_id v = v.template_id == template_id && not v.is_published

abbrev pub delete_unless : Bool → ℕ → Tx (Unit {0})
delete_unless true template_id db = err fault
delete_unless false template_id db =
    ok
      (tt, record db { versions = select (λ v. not (is_unpublished_of template_id v)) db.versions })

-- the assignment `template.versions = [... if version.is_published]`: the relationship has the cascade "all, delete-orphan",
-- so the commit deletes the rows that are no longer in the collection. It fails where jobs or artifacts refer to one,
-- since their key cannot be null.
unfoldable pub keep_published : ℕ → Tx (Unit {0})
keep_published template_id db =
    delete_unless (any (λ v. is_unpublished_of template_id v && is_referenced db v) db.versions)
      template_id db

module _ {O : Type 0} where
  unfoldable pub list_templates : ℕ → Bool → Io O (List TemplateResponse)
  list_templates organization_id published_only = transaction (do
    templates ← session (list_all organization_id published_only)
    session (gets λ db. map (λ t. serialize_template t (versions_of t.id db)) templates))

  abbrev pub published_versions : Bool → ℕ → Io O (Unit {0})
  published_versions true template_id = session (keep_published template_id)
  published_versions false template_id = pure tt

  unfoldable pub get_template : ℕ → ℕ → Bool → Io O TemplateDetailResponse
  unfolding transaction
  get_template organization_id template_id published_only = transaction (do
    found ← session (get_by_id template_id organization_id published_only)
    template ← or_raise found not_found
    published_versions published_only template.id
    versions ← session (gets (versions_of template.id))
    pure (serialize_template_detail template versions))

  -- the template, and its current version
  unfoldable pub current_version_of : ℕ → ℕ → Io O (Template × TemplateVersion)
  current_version_of organization_id template_id = do
    found ← session (get_by_id template_id organization_id false)
    template ← or_raise found not_found
    versions ← session (gets (versions_of template.id))
    version ← or_raise (current_among versions) not_found
    pure (template, version)

module _ {O : Type 0} (s : TemplateServices O) where
  unfoldable pub extract_schema_for_template : ℕ → ℕ → Io O TemplateSchemaExtractionResponse
  unfolding transaction current_version_of
  extract_schema_for_template organization_id template_id = transaction (do
    loaded ← current_version_of organization_id template_id
    content ← download_bytes s.client loaded.1.storage_key
    schema ←
        lift
          (extract_schema s.docx.is_zipfile s.packages s.unicode loaded.1.original_filename content)
    version ← session (update_schema schema schema.components loaded.1)
    pure (record {
      organization_id = loaded.0.organization_id;
      template_id = loaded.0.id;
      template_version_id = version.id;
      schema_payload = schema;
    }))

  abbrev pub validated : Upload → Result Text
  validated file =
      validate_template_upload s.docx.is_zipfile s.unicode.lower s.max_upload_size_bytes
        file.file_name file.content_type file.content

  unfoldable pub extract_schema_from_upload : Upload → Io O TemplateSchemaResponse
  extract_schema_from_upload file = do
    safe_file_name ← lift (validated file)
    lift (extract_schema s.docx.is_zipfile s.packages s.unicode safe_file_name file.content)

  unfoldable pub analyze_import_from_upload : Upload → Io O TemplateImportAnalysisResponse
  analyze_import_from_upload file = do
    safe_file_name ← lift (validated file)
    lift (analyze s.docx s.unicode safe_file_name file.content)

  unfoldable pub inspect_import_from_upload : Upload → Io O TemplateImportInspectionResponse
  inspect_import_from_upload file = do
    safe_file_name ← lift (validated file)
    lift (inspect s.docx s.unicode safe_file_name file.content)

  unfoldable pub analyze_import_for_template : ℕ → ℕ → Io O TemplateImportAnalysisResponse
  unfolding transaction current_version_of
  analyze_import_for_template organization_id template_id = transaction (do
    loaded ← current_version_of organization_id template_id
    content ← download_bytes s.client loaded.1.storage_key
    lift (analyze s.docx s.unicode loaded.1.original_filename content))

  unfoldable pub inspect_import_for_template : ℕ → ℕ → Io O TemplateImportInspectionResponse
  unfolding transaction current_version_of
  inspect_import_for_template organization_id template_id = transaction (do
    loaded ← current_version_of organization_id template_id
    content ← download_bytes s.client loaded.1.storage_key
    lift (inspect s.docx s.unicode loaded.1.original_filename content))

  -- the bindings are stored on the current version
  unfoldable pub store_bindings :
      Template
      → TemplateVersion
      → List ImportBinding × TemplateSchemaResponse
      → Io O TemplateImportConfirmationResponse
  store_bindings template version (bindings, schema) = do
    updated ←
        session
          (update_import_configuration "docx_import" bindings schema schema.components version)
    pure (record {
      organization_id = template.organization_id;
      template_id = template.id;
      template_version_id = updated.id;
      render_strategy = updated.render_strategy;
      schema_payload = schema;
      confirmed_binding_count = length bindings;
      bindings = bindings;
    })

  unfoldable pub confirm_import_for_template :
      ℕ → ℕ → String → List ConfirmationItem → Io O TemplateImportConfirmationResponse
  unfolding transaction current_version_of store_bindings
  confirm_import_for_template organization_id template_id analysis_checksum items = transaction (do
    loaded ← current_version_of organization_id template_id
    content ← download_bytes s.client loaded.1.storage_key
    analysis ← lift (analyze s.docx s.unicode loaded.1.original_filename content)
    raise_if (not (str_eq analysis.analysis_checksum analysis_checksum)) validation
    confirmed ← lift (confirm_bindings analysis items)
    store_bindings loaded.0 loaded.1 confirmed)

  unfoldable pub templateize_import_for_template :
      ℕ → ℕ → String → List SelectionItem → Io O TemplateImportConfirmationResponse
  unfolding transaction current_version_of store_bindings
  templateize_import_for_template organization_id template_id inspection_checksum selections =
      transaction (do
        loaded ← current_version_of organization_id template_id
        content ← download_bytes s.client loaded.1.storage_key
        inspection ← lift (inspect s.docx s.unicode loaded.1.original_filename content)
        raise_if (not (str_eq inspection.inspection_checksum inspection_checksum)) validation
        selected ← lift (templateize_from_selections s.unicode inspection selections)
        store_bindings loaded.0 loaded.1 selected)
