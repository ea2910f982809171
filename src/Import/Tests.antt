-- ===== src/Import/Tests.antt =====
-- Examples of the import of a document.
use document_generation_anek.Prelude.{ℕ, ◌≡◌, refl, true, none, List, [], ◌∷◌, all, All, length}
use document_generation_anek.Text.{Text, codes, slice}
use document_generation_anek.Text.Decimal.{str_int}
use document_generation_anek.Result.{Result, ok, err, validation}
use document_generation_anek.Schema.{TemplateSchemaResponse, ImportBinding, empty_schema}
use document_generation_anek.Docx.{
  run, hyperlink, Paragraph, runs, text, tables_targets, container_targets,
  iter_document_paragraph_targets,
}
use document_generation_anek.Import.Patterns.{
  find_all, placeholder, bracket, square, angle, quoted, blank,
}
use document_generation_anek.Import.Labels.{clean_label, label_of_prefix, derive_blank_label}
use document_generation_anek.Import.Keys.{is_word, binding_key_from_label}
use document_generation_anek.Import.Keys.Safe.{binding_key_from_label-is_safe_key}
use document_generation_anek.Import.Candidates.{
  build_candidate, add_placeholder, add_bracket, add_blank, add_blank_labelled, extract_candidates,
  extract_all, candidates_of,
}
use document_generation_anek.Rendering.{apply_sorted, apply_all, replace_span}
use document_generation_anek.Import.Plain.{HasNoHyperlinks}
use document_generation_anek.Import.Validity.{CanFill, candidates_of-CanFill}
use document_generation_anek.Import.Bindings.{
  TemplateImportAnalysisResponse, TemplateImportInspectionResponse, ensure_docx, paragraph_item,
  inspected, inspect, analyze, build_schema_from_candidates,
}
use document_generation_anek.Import.Confirmation.{
  ConfirmationItem, SelectionItem, is_safe_key, confirm_all, confirm_bindings, select_one,
  select_all, templateize_from_selections, validate_manual_selections,
}
use document_generation_anek.Import.Filling.{BindingCanFill, Keys, confirm_bindings-CanFill}
use document_generation_anek.Import.Selecting.{Chosen, templateize-CanFill}
use document_generation_anek.Fixtures.Outside.{letters, form, docx_library}

abbrev answer :
    Result (List ImportBinding × TemplateSchemaResponse)
    → List ImportBinding × TemplateSchemaResponse
answer (ok x) = x
answer (err e) = ([], empty_schema)

-- the only paragraph of the form holds runs
plain_form : HasNoHyperlinks form
unfolding iter_document_paragraph_targets container_targets tables_targets
plain_form = (refl, tt)

candidates_of-CanFill_example : All (CanFill form) (candidates_of letters form)
candidates_of-CanFill_example = candidates_of-CanFill letters form plain_form

one_candidate : length (candidates_of letters form) ≡ 1
unfolding candidates_of extract_all extract_candidates add_placeholder add_bracket add_blank
    add_blank_labelled build_candidate iter_document_paragraph_targets container_targets
    tables_targets str_int find_all placeholder bracket square angle quoted blank derive_blank_label
    label_of_prefix clean_label
one_candidate = refl

-- every digest of the example is written in letters and digits
hex : (s : Text) → all is_word (letters.sha1 s) ≡ true
hex s = refl

binding_key_from_label-is_safe_key_example :
    is_safe_key (binding_key_from_label letters (codes "1. Full name")) ≡ true
binding_key_from_label-is_safe_key_example =
    binding_key_from_label-is_safe_key letters hex (codes "1. Full name")

abbrev analysis : TemplateImportAnalysisResponse
analysis = record {
  analysis_checksum = "digest";
  candidate_count = length (candidates_of letters form);
  candidates = candidates_of letters form;
  schema_payload = build_schema_from_candidates (candidates_of letters form);
}

analyzed : analyze docx_library letters (codes "form.docx") [] ≡ ok analysis
unfolding analyze ensure_docx
analyzed = refl

abbrev item : ConfirmationItem
item = record {
  candidate_id = codes "0a1b2c3d4e5f";
  binding_key = codes "full_name";
  label = none;
  component_type = none;
  value_type = none;
  required = true;
  sample_value = none;
}

abbrev confirmed : List ImportBinding × TemplateSchemaResponse
confirmed = answer (confirm_bindings analysis (item ∷ []))

confirming : confirm_bindings analysis (item ∷ []) ≡ ok (confirmed.0, confirmed.1)
unfolding confirm_bindings confirm_all candidates_of extract_all extract_candidates add_placeholder
    add_bracket add_blank add_blank_labelled build_candidate iter_document_paragraph_targets
    container_targets tables_targets str_int find_all placeholder bracket square angle quoted blank
    derive_blank_label label_of_prefix clean_label
confirming = refl

confirm_bindings-CanFill_example :
    All (BindingCanFill form) confirmed.0 × Keys (item ∷ []) confirmed.0
confirm_bindings-CanFill_example =
    confirm_bindings-CanFill docx_library letters (codes "form.docx") [] form analysis (item ∷ [])
      confirmed.0 confirmed.1 plain_form refl analyzed confirming

abbrev inspection : TemplateImportInspectionResponse
inspection = record {
  inspection_checksum = "digest";
  paragraph_count = length (inspected form);
  paragraphs = inspected form;
}

inspecting : inspect docx_library letters (codes "form.docx") [] ≡ ok inspection
unfolding inspect ensure_docx
inspecting = refl

abbrev span : ℕ → ℕ → SelectionItem
span start end = record {
  paragraph_path = codes "body/p/0";
  fragment_start = start;
  fragment_end = end;
  binding_key = codes "full_name";
  label = none;
  component_type = none;
  value_type = none;
  required = true;
  sample_value = none;
}

abbrev selected : List ImportBinding × TemplateSchemaResponse
selected = answer (templateize_from_selections letters inspection (span 6 10 ∷ []))

selecting :
    templateize_from_selections letters inspection (span 6 10 ∷ []) ≡ ok (selected.0, selected.1)
unfolding templateize_from_selections select_all select_one inspected paragraph_item
    iter_document_paragraph_targets container_targets tables_targets str_int
selecting = refl

templateize-CanFill_example :
    All (BindingCanFill form) selected.0 × Chosen (span 6 10 ∷ []) selected.0
templateize-CanFill_example =
    templateize-CanFill docx_library letters (codes "form.docx") [] form inspection (span 6 10 ∷ [])
      selected.0 selected.1 plain_form refl inspecting selecting

-- two selections that overlap pass the checks
overlapping :
    validate_manual_selections (span 6 10 ∷ span 5 8 ∷ []) ≡ ok (span 6 10 ∷ span 5 8 ∷ [])
unfolding validate_manual_selections
overlapping = refl

-- a blank in a hyperlink is part of the paragraph's text, but not of its runs, so that it can not be filled
abbrev linked : Paragraph
linked = record { id = 2; content = run (codes "See ") ∷ hyperlink (codes "____" ∷ []) ∷ [] }

in_text : slice 4 8 (text linked) ≡ codes "____"
in_text = refl

not_in_runs :
    apply_sorted
      (runs linked)
      (record { start = 4; end = 8; raw_fragment = codes "____"; value = codes "x" } ∷ [])
    ≡ err validation
unfolding apply_sorted apply_all replace_span
not_in_runs = refl
