-- ===== src/Templates.antt =====
-- app/repositories/template_repository.py and template_version_repository.py: templates and their versions. Rows are in the
-- order of insertion, which is that of `created_at`.
pub mod Versions
pub mod Code
pub mod Extraction
pub mod Responses
pub mod Service
pub mod Ingestion
mod Tests
use Prim.Native.String.{String}
use mathlib.Core.List.{reverse}
use document_generation_anek.Prelude.{
  ℕ, suc, Bool, true, false, ◌&&◌, Option, none, some, List, [], ◌∷◌, ◌++◌, map, any, find, select,
  update, ◌==◌,
}
use document_generation_anek.Text.{Text, text_eq}
use document_generation_anek.Schema.{
  TemplateSchemaResponse, TemplateComponentSchemaItem, ImportBinding,
}
use document_generation_anek.Models.{Template, TemplateVersion}
use document_generation_anek.Result.{ok, fault}
use document_generation_anek.Database.{Db, Tx, pure, raise, gets, modify, ◌>>=◌, ◌>>◌}

-- `result.scalar_one_or_none()` raises MultipleResultsFound when there are several rows
unfoldable pub scalar_one_or_none : {A : Type 0} → List A → Tx (Option A)
scalar_one_or_none [] = pure none
scalar_one_or_none (row ∷ []) = pure (some row)
scalar_one_or_none (row ∷ next ∷ rows) = raise fault

-- the relationship `template.versions`
abbrev pub versions_of : ℕ → Db → List TemplateVersion
versions_of template_id db = select (λ v. v.template_id == template_id) db.versions

abbrev pub is_live : ℕ → TemplateVersion → Bool
is_live template_id v = v.template_id == template_id && v.is_current && v.is_published

-- the rows of one template: with `published_only` one for each current and published version of it
abbrev pub joined : Bool → Db → Template → List Template
joined true db t = map (λ v. t) (select (is_live t.id) db.versions)
joined false db t = t ∷ []

abbrev pub all_joined : Bool → Db → List Template → List Template
all_joined published_only db [] = []
all_joined published_only db (t ∷ ts) =
    joined published_only db t ++ all_joined published_only db ts

-- newest first; `unique()` keeps one row of each template
abbrev pub is_listed : Bool → Db → Template → Bool
is_listed true db t = any (is_live t.id) db.versions
is_listed false db t = true

unfoldable pub list_all : ℕ → Bool → Tx (List Template)
list_all organization_id published_only = gets λ db. reverse (
    select (λ t. t.organization_id == organization_id && is_listed published_only db t)
      db.templates)

unfoldable pub get_by_code : ℕ → Text → Tx (Option Template)
unfolding scalar_one_or_none
get_by_code organization_id code db =
    scalar_one_or_none
      (select (λ t. t.organization_id == organization_id && text_eq t.code code) db.templates) db

unfoldable pub get_by_id : ℕ → ℕ → Bool → Tx (Option Template)
unfolding scalar_one_or_none
get_by_id template_id organization_id published_only db =
    scalar_one_or_none
      (all_joined published_only db
        (select (λ t. t.id == template_id && t.organization_id == organization_id) db.templates))
      db

-- `make` is the row without its primary key
unfoldable pub create_template : (ℕ → Template) → Tx Template
create_template make db =
    pure (make db.next_id)
      (record db { next_id = suc db.next_id; templates = db.templates ++ make db.next_id ∷ [] })

-- the writes to the attributes of a template that is loaded
unfoldable pub save_template : (Template → Template) → Template → Tx Template
save_template f t db =
    pure (f t) (record db { templates = update (λ r. r.id == t.id) f db.templates })

-- TemplateVersionRepository
unfoldable pub create_version : (ℕ → TemplateVersion) → Tx TemplateVersion
create_version make db =
    pure (make db.next_id)
      (record db { next_id = suc db.next_id; versions = db.versions ++ make db.next_id ∷ [] })

abbrev pub save_version : (TemplateVersion → TemplateVersion) → TemplateVersion → Tx TemplateVersion
save_version f v db = pure (f v) (record db { versions = update (λ r. r.id == v.id) f db.versions })

unfoldable pub update_schema :
    TemplateSchemaResponse → List TemplateComponentSchemaItem → TemplateVersion → Tx TemplateVersion
update_schema schema components =
    save_version (λ v. record v { variable_schema = schema; component_schema = components })

unfoldable pub update_import_configuration :
    String
    → List ImportBinding
    → TemplateSchemaResponse
    → List TemplateComponentSchemaItem
    → TemplateVersion
    → Tx TemplateVersion
update_import_configuration render_strategy bindings schema components = save_version λ v.
    record v {
      render_strategy = render_strategy;
      import_bindings = bindings;
      variable_schema = schema;
      component_schema = components;
    }

abbrev pub is_version : ℕ → Text → TemplateVersion → Bool
is_version template_id version v = v.template_id == template_id && text_eq v.version version

unfoldable pub get_by_template_and_version : ℕ → Text → Tx (Option TemplateVersion)
unfolding scalar_one_or_none
get_by_template_and_version template_id version db =
    scalar_one_or_none (select (is_version template_id version) db.versions) db

abbrev pub not_current : TemplateVersion → TemplateVersion
not_current v = record v { is_current = false }

unfoldable pub unset_current_versions : ℕ → Tx (Unit {0})
unset_current_versions template_id = modify λ db. record db {
  versions = update (λ v. v.template_id == template_id) not_current db.versions;
}

unfoldable pub version_by_id : ℕ → Tx (Option TemplateVersion)
version_by_id template_version_id = gets λ db. find (λ v. v.id == template_version_id) db.versions

abbrev pub is_current_of : ℕ → TemplateVersion → Bool
is_current_of template_id v = v.template_id == template_id && v.is_current

unfoldable pub get_current_for_template : ℕ → Tx (Option TemplateVersion)
unfolding scalar_one_or_none
get_current_for_template template_id db =
    scalar_one_or_none (select (is_current_of template_id) db.versions) db

-- the end of `upload_template` and `register_template`: the new version takes the place of the current one
unfoldable pub add_current_version : ℕ → (ℕ → TemplateVersion) → Tx TemplateVersion
unfolding unset_current_versions create_version
add_current_version template_id make = do unset_current_versions template_id; create_version make
