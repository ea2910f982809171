-- ===== src/Import/Confirmation.antt =====
-- The bindings that a user confirms or selects by hand, with the checks of the request DTOs (app/dtos/template.py) that
-- stand before them. A `ValueError` of a validator refuses the request.
use Prim.Native.String.{String}
use text.Mathlib.Text.{◌==◌ as str_eq}
use document_generation_anek.Prelude.{
  ℕ, Bool, false, not, ◌&&◌, ◌||◌, Option, none, some, List, [], ◌∷◌, ◌++◌, map, all, any, length,
  take, leb, ltb, ◌==◌, if◌then◌else◌,
}
use document_generation_anek.Text.{Text, codes, text_eq, is_space, strip, slice}
use document_generation_anek.Text.Decimal.{str_int}
use document_generation_anek.Json.{Dict, get, put}
use document_generation_anek.Result.{
  Result, ok, validation, value_error, ◌>>=◌, ◌>>◌, raise_if, or_raise,
}
use document_generation_anek.Schema.{TemplateSchemaResponse, ImportBinding}
use document_generation_anek.Import.Patterns.{is_letter, is_key_char}
use document_generation_anek.Import.Labels.{Unicode}
use document_generation_anek.Import.Keys.{label_from_key, infer_component_type, infer_value_type}
use document_generation_anek.Import.Candidates.{FieldCandidate}
use document_generation_anek.Import.Bindings.{
  TemplateImportAnalysisResponse, TemplateImportInspectionResponse, TemplateImportParagraphItem,
  build_schema_from_bindings,
}

pub record ConfirmationItem : Type 0 where
  pub candidate_id : Text
  pub binding_key : Text
  pub label : Option Text
  pub component_type : Option String
  pub value_type : Option String
  pub required : Bool
  pub sample_value : Option Text

pub record SelectionItem : Type 0 where
  pub paragraph_path : Text
  pub fragment_start : ℕ
  pub fragment_end : ℕ
  pub binding_key : Text
  pub label : Option Text
  pub component_type : Option String
  pub value_type : Option String
  pub required : Bool
  pub sample_value : Option Text

-- SAFE_BINDING_KEY_PATTERN, for a whole key
abbrev pub is_safe_key : Text → Bool
is_safe_key [] = false
is_safe_key (c ∷ s) = is_letter c && all is_key_char s && leb (length s) 119

-- `strip_required_binding_text` and `validate_binding_key`
unfoldable pub validate_binding_key : Text → Result Text
validate_binding_key value = do
  raise_if (text_eq (strip is_space value) []) value_error
  raise_if (not (is_safe_key (strip is_space value))) value_error
  ok (strip is_space value)

-- `len(items) != len(set(items))`
abbrev pub has_duplicate : List Text → Bool
has_duplicate [] = false
has_duplicate (s ∷ ss) = any (text_eq s) ss || has_duplicate ss

-- TemplateImportConfirmRequest.validate_binding_items
unfoldable pub validate_binding_items : List ConfirmationItem → Result (List ConfirmationItem)
validate_binding_items items = do
  raise_if (has_duplicate (map (λ i. i.candidate_id) items)) value_error
  raise_if (has_duplicate (map (λ i. i.binding_key) items)) value_error
  ok items

-- TemplateImportManualSelectionItem.validate_fragment_bounds
unfoldable pub validate_fragment_bounds : ℕ → ℕ → Result ℕ
validate_fragment_bounds fragment_start fragment_end = do
  raise_if (leb fragment_end fragment_start) value_error
  ok fragment_end

abbrev pub same_span : SelectionItem → SelectionItem → Bool
same_span a b =
    text_eq a.paragraph_path b.paragraph_path
    && a.fragment_start == b.fragment_start
    && a.fragment_end == b.fragment_end

abbrev pub has_duplicate_span : List SelectionItem → Bool
has_duplicate_span [] = false
has_duplicate_span (s ∷ ss) = any (same_span s) ss || has_duplicate_span ss

-- TemplateImportTemplateizeRequest.validate_manual_selections
unfoldable pub validate_manual_selections : List SelectionItem → Result (List SelectionItem)
validate_manual_selections items = do raise_if (has_duplicate_span items) value_error; ok items

-- `a or b` for texts
abbrev pub given_or : Option Text → Text → Text
given_or none d = d
given_or (some []) d = d
given_or (some (c ∷ s)) d = c ∷ s

abbrev pub kind_or : Option String → String → String
kind_or none d = d
kind_or (some s) d = if str_eq s "" then d else s

-- `candidate_by_id`: of two candidates with one id the later one stays
abbrev pub by_id : List FieldCandidate → Dict FieldCandidate → Dict FieldCandidate
by_id [] d = d
by_id (c ∷ cs) d = by_id cs (put c.id c d)

unfoldable pub confirmed_binding : FieldCandidate → ConfirmationItem → ImportBinding
confirmed_binding c i = record {
  id = codes "binding-" ++ c.id;
  candidate_id = c.id;
  binding_key = i.binding_key;
  label = given_or i.label c.label;
  raw_fragment = c.raw_fragment;
  paragraph_path = c.paragraph_path;
  value_type = kind_or i.value_type c.value_type;
  component_type = kind_or i.component_type c.component_type;
  required = i.required;
  sample_value = i.sample_value;
  fragment_start = c.fragment_start;
  fragment_end = c.fragment_end;
}

-- the loop of `confirm_bindings`
unfoldable pub confirm_all :
    Dict FieldCandidate → List ConfirmationItem → Result (List ImportBinding)
unfolding confirmed_binding
confirm_all candidates [] = ok []
confirm_all candidates (i ∷ items) = do
  candidate ← or_raise (get i.candidate_id candidates) validation
  bindings ← confirm_all candidates items
  ok (confirmed_binding candidate i ∷ bindings)

unfoldable pub confirm_bindings :
    TemplateImportAnalysisResponse
    → List ConfirmationItem
    → Result (List ImportBinding × TemplateSchemaResponse)
unfolding confirm_all build_schema_from_bindings
confirm_bindings analysis confirmations = do
  bindings ← confirm_all (by_id analysis.candidates []) confirmations
  ok (bindings, build_schema_from_bindings bindings)

-- `paragraph_by_path`
abbrev pub by_path :
    List TemplateImportParagraphItem
    → Dict TemplateImportParagraphItem
    → Dict TemplateImportParagraphItem
by_path [] d = d
by_path (p ∷ ps) d = by_path ps (put p.path p d)

-- f"{paragraph_path}:{fragment_start}:{fragment_end}:{binding_key}"
abbrev pub selection_name : SelectionItem → Text
selection_name s =
    s.paragraph_path
    ++ (b':'
        ∷ (str_int s.fragment_start ++ (b':' ∷ (str_int s.fragment_end ++ (b':' ∷ s.binding_key)))))

unfoldable pub selected_binding :
    Unicode → TemplateImportParagraphItem → SelectionItem → ImportBinding
selected_binding u paragraph s =
    let label = given_or s.label (label_from_key u s.binding_key) in
    let binding_id = take 12 (u.sha1 (selection_name s)) in
    record {
      id = codes "binding-" ++ binding_id;
      candidate_id = codes "manual-" ++ binding_id;
      binding_key = s.binding_key;
      label = label;
      raw_fragment = slice s.fragment_start s.fragment_end paragraph.text;
      paragraph_path = s.paragraph_path;
      value_type = kind_or s.value_type (infer_value_type u s.binding_key label);
      component_type = kind_or s.component_type (infer_component_type u s.binding_key label);
      required = s.required;
      sample_value = s.sample_value;
      fragment_start = s.fragment_start;
      fragment_end = s.fragment_end;
    }

-- the checks and the binding of one selection
unfoldable pub select_one :
    Unicode → Dict TemplateImportParagraphItem → SelectionItem → Result ImportBinding
unfolding selected_binding
select_one u paragraphs s = do
  paragraph ← or_raise (get s.paragraph_path paragraphs) validation
  raise_if (ltb paragraph.char_count s.fragment_end) validation
  raise_if (text_eq (slice s.fragment_start s.fragment_end paragraph.text) []) validation
  ok (selected_binding u paragraph s)

unfoldable pub select_all :
    Unicode → Dict TemplateImportParagraphItem → List SelectionItem → Result (List ImportBinding)
unfolding select_one
select_all u paragraphs [] = ok []
select_all u paragraphs (s ∷ selections) = do
  binding ← select_one u paragraphs s
  bindings ← select_all u paragraphs selections
  ok (binding ∷ bindings)

unfoldable pub templateize_from_selections :
    Unicode
    → TemplateImportInspectionResponse
    → List SelectionItem
    → Result (List ImportBinding × TemplateSchemaResponse)
unfolding select_all build_schema_from_bindings
templateize_from_selections u inspection selections = do
  bindings ← select_all u (by_path inspection.paragraphs []) selections
  ok (bindings, build_schema_from_bindings bindings)
