-- ===== src/Import/Bindings.antt =====
-- `inspect`, `analyze`, `confirm_bindings`, `templateize_from_selections` and the schemas that are built from them.
use Prim.Native.String.{String}
use document_generation_anek.Prelude.{
  ℕ, Bool, not, ◌||◌, Option, none, List, [], ◌∷◌, ◌++◌, map, any, length, select, sort_by,
  count_by, if◌then◌else◌,
}
use document_generation_anek.Text.{Text, codes, text_eq, text_le, is_space, strip}
use document_generation_anek.Result.{Result, ok, validation, ◌>>=◌, ◌>>◌, raise_if}
use document_generation_anek.Schema.{
  TemplateVariableSchemaItem, TemplateComponentSchemaItem, TemplateSchemaResponse, ImportBinding,
}
use document_generation_anek.Storage.{Bytes}
use document_generation_anek.Docx.{Document, ParagraphTarget, text, iter_document_paragraph_targets}
use document_generation_anek.Import.Labels.{Unicode}
use document_generation_anek.Import.Candidates.{DocxLibrary, FieldCandidate, candidates_of}

-- a schema item before the items are sorted
abbrev pub has_key : Text → List Text → Bool
has_key key seen = any (text_eq key) seen

-- `setdefault`: the first item of each key, in order
abbrev pub first_per_key : {A : Type 0} → (A → Text) → List Text → List A → List A
first_per_key key seen [] = []
first_per_key key seen (a ∷ items) =
    let rest = first_per_key key (key a ∷ seen) items in
    let skipped = first_per_key key seen items in if has_key (key a) seen then skipped else a ∷ rest

-- `Counter(...)[k]`
abbrev pub occurrences_of : {A : Type 0} → (A → Text) → List A → Text → ℕ
occurrences_of key items k = count_by (λ a. text_eq (key a) k) items

unfoldable pub variable_of_binding : List ImportBinding → ImportBinding → TemplateVariableSchemaItem
variable_of_binding bindings b = record {
  key = b.binding_key;
  label = b.label;
  placeholder = b.raw_fragment;
  value_type = b.value_type;
  component_type = b.component_type;
  required = b.required;
  sample_value = b.sample_value;
  occurrences = occurrences_of (λ c. c.binding_key) bindings b.binding_key;
  sources = b.paragraph_path ∷ [];
}

unfoldable pub component_of_binding : ImportBinding → TemplateComponentSchemaItem
component_of_binding b = record {
  id = b.id;
  component = b.component_type;
  binding = b.binding_key;
  label = b.label;
  value_type = b.value_type;
  required = b.required;
}

unfoldable pub build_schema_from_bindings : List ImportBinding → TemplateSchemaResponse
unfolding variable_of_binding component_of_binding
build_schema_from_bindings bindings =
    let deduped = first_per_key (λ b. b.binding_key) [] bindings in
    let variables = map (variable_of_binding bindings) deduped in
    record {
      variable_count = length variables;
      variables = sort_by (λ a b. text_le a.key b.key) variables;
      components = sort_by (λ a b. text_le a.binding b.binding) (map component_of_binding deduped);
    }

unfoldable pub variable_of_candidate :
    List FieldCandidate → FieldCandidate → TemplateVariableSchemaItem
variable_of_candidate candidates c = record {
  key = c.suggested_binding;
  label = c.label;
  placeholder = c.raw_fragment;
  value_type = c.value_type;
  component_type = c.component_type;
  required = c.required;
  sample_value = none;
  occurrences = occurrences_of (λ d. d.suggested_binding) candidates c.suggested_binding;
  sources = c.paragraph_path ∷ [];
}

unfoldable pub component_of_variable : TemplateVariableSchemaItem → TemplateComponentSchemaItem
component_of_variable v = record {
  id = codes "component-" ++ v.key;
  component = v.component_type;
  binding = v.key;
  label = v.label;
  value_type = v.value_type;
  required = v.required;
}

unfoldable pub build_schema_from_candidates : List FieldCandidate → TemplateSchemaResponse
unfolding variable_of_candidate component_of_variable
build_schema_from_candidates candidates =
    let variables =
      map (variable_of_candidate candidates)
        (first_per_key (λ c. c.suggested_binding) [] candidates) in
    record {
      variable_count = length variables;
      variables = sort_by (λ a b. text_le a.key b.key) variables;
      components =
          sort_by (λ a b. text_le a.binding b.binding) (map component_of_variable variables);
    }

pub record TemplateImportAnalysisResponse : Type 0 where
  pub analysis_checksum : String
  pub candidate_count : ℕ
  pub candidates : List FieldCandidate
  pub schema_payload : TemplateSchemaResponse

pub record TemplateImportParagraphItem : Type 0 where
  pub path : Text
  pub source_type : String
  pub text : Text
  pub char_count : ℕ
  pub table_header_label : Option Text

pub record TemplateImportInspectionResponse : Type 0 where
  pub inspection_checksum : String
  pub paragraph_count : ℕ
  pub paragraphs : List TemplateImportParagraphItem

-- `s.endswith(t)`
abbrev pub ends_with : Text → Text → Bool
ends_with t [] = text_eq t []
ends_with t (c ∷ s) = text_eq t (c ∷ s) || ends_with t s

unfoldable pub ensure_docx : DocxLibrary → Unicode → Text → Bytes → Result (Unit {0})
ensure_docx docx u file_name content = do
  raise_if (not (ends_with (codes ".docx") (u.lower file_name))) validation
  raise_if (not (docx.is_zipfile content)) validation

unfoldable pub paragraph_item : ParagraphTarget → TemplateImportParagraphItem
paragraph_item target = record {
  path = target.path;
  source_type = target.source_type;
  text = text target.paragraph;
  char_count = length (text target.paragraph);
  table_header_label = target.table_header_label;
}

-- the paragraphs with a text that is not blank
unfoldable pub inspected : Document → List TemplateImportParagraphItem
unfolding paragraph_item
inspected document = map paragraph_item (
    select (λ t. not (text_eq (strip is_space (text t.paragraph)) []))
      (iter_document_paragraph_targets document))

unfoldable pub inspect :
    DocxLibrary → Unicode → Text → Bytes → Result TemplateImportInspectionResponse
unfolding ensure_docx inspected
inspect docx u file_name content = do
  ensure_docx docx u file_name content
  document ← docx.load_docx_document content
  ok (record {
    inspection_checksum = docx.sha256 content;
    paragraph_count = length (inspected document);
    paragraphs = inspected document;
  })

unfoldable pub analyze :
    DocxLibrary → Unicode → Text → Bytes → Result TemplateImportAnalysisResponse
unfolding ensure_docx build_schema_from_candidates candidates_of
analyze docx u file_name content = do
  ensure_docx docx u file_name content
  document ← docx.load_docx_document content
  ok (record {
    analysis_checksum = docx.sha256 content;
    candidate_count = length (candidates_of u document);
    candidates = candidates_of u document;
    schema_payload = build_schema_from_candidates (candidates_of u document);
  })
