-- ===== src/Documents/Resolver.antt =====
-- app/services/generation/template_resolver_service.py: the template and the version that a job is generated from.
use Prim.Native.String.{String}
use document_generation_anek.Prelude.{ℕ, Bool, not, ◌&&◌, Option, none, some, List, ◌==◌}
use document_generation_anek.Text.{Text}
use document_generation_anek.Schema.{TemplateSchemaResponse, ImportBinding}
use document_generation_anek.Models.{Organization, Template, TemplateVersion}
use document_generation_anek.Result.{not_found}
use document_generation_anek.Database.{Tx, pure, or_raise, raise_if, ◌>>=◌, ◌>>◌}
use document_generation_anek.Billing.Store.{organization_by_id}
use document_generation_anek.Templates.{get_by_id, version_by_id, get_current_for_template}

-- generation/models.py
pub record ResolvedTemplateContext : Type 0 where
  pub template_id : ℕ
  pub template_version_id : ℕ
  pub organization_id : ℕ
  pub organization_code : Text
  pub template_code : Text
  pub template_name : Text
  pub template_version : Text
  pub original_filename : Text
  pub variable_schema : TemplateSchemaResponse
  pub storage_key : Text
  pub render_strategy : String
  pub import_bindings : List ImportBinding

-- `_to_context`
unfoldable pub to_context : Template → TemplateVersion → Organization → ResolvedTemplateContext
to_context template version organization = record {
  template_id = template.id;
  template_version_id = version.id;
  organization_id = template.organization_id;
  organization_code = organization.code;
  template_code = template.code;
  template_name = template.name;
  template_version = version.version;
  original_filename = version.original_filename;
  variable_schema = version.variable_schema;
  storage_key = version.storage_key;
  render_strategy = version.render_strategy;
  import_bindings = version.import_bindings;
}

abbrev pub requested_version : ℕ → Option ℕ → Tx (Option TemplateVersion)
requested_version template_id none = get_current_for_template template_id
requested_version template_id (some version_id) = version_by_id version_id

-- TemplateResolverService.resolve
unfoldable pub resolve : ℕ → ℕ → Option ℕ → Bool → Tx ResolvedTemplateContext
unfolding to_context
resolve organization_id template_id template_version_id require_published = do
  found ← get_by_id template_id organization_id require_published
  template ← or_raise found not_found
  version_found ← requested_version template.id template_version_id
  version ← or_raise version_found not_found
  raise_if (not (version.template_id == template.id)) not_found
  raise_if (require_published && not version.is_published) not_found
  organization_found ← organization_by_id template.organization_id
  organization ← or_raise organization_found not_found
  pure (to_context template version organization)
