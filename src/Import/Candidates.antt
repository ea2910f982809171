-- ===== src/Import/Candidates.antt =====
-- `inspect`, `analyze` and `_extract_candidates`: the fields of a document. Reading the DOCX package (zipfile, python-docx) and
-- SHA-256 are parameters.
use Prim.Native.String.{String}
use package.text.Mathlib.Text.{◌==◌ as str_eq}
use document_generation_anek.Prelude.{
  ℕ, Bool, true, false, not, ◌&&◌, ◌||◌, Option, none, some, List, [], ◌∷◌, ◌++◌, any, take,
  sort_by, ltb, ◌==◌, if◌then◌else◌,
}
use document_generation_anek.Text.{Text, text_eq, text_le, is_space, strip}
use document_generation_anek.Text.Decimal.{str_int}
use document_generation_anek.Result.{Result}
use document_generation_anek.Storage.{Bytes}
use document_generation_anek.Docx.{Document, ParagraphTarget, text, iter_document_paragraph_targets}
use document_generation_anek.Import.Patterns.{
  Match, find_all, placeholder, bracket, blank, is_citation,
}
use document_generation_anek.Import.Labels.{Unicode, clean_label, derive_blank_label}
use document_generation_anek.Import.Keys.{
  binding_key_from_label, label_from_key, infer_component_type, infer_value_type,
  has_bracket_field_context,
}

-- what the libraries read off an uploaded file
pub record DocxLibrary : Type 0 where
  pub is_zipfile : Bytes → Bool
  pub load_docx_document : Bytes → Result Document
  pub sha256 : Bytes → String

pub data DetectionKind : Type 0 where
  existing_placeholder bracketed_label blank_span : DetectionKind

-- TemplateImportFieldCandidate; `confidence` in hundredths
pub record FieldCandidate : Type 0 where
  pub id : Text
  pub label : Text
  pub suggested_binding : Text
  pub raw_fragment : Text
  pub paragraph_path : Text
  pub source_type : String
  pub detection_kind : DetectionKind
  pub confidence : ℕ
  pub preview_text : Text
  pub value_type : String
  pub component_type : String
  pub required : Bool
  pub fragment_start : ℕ
  pub fragment_end : ℕ

-- an entry of `seen_locations`
pub record Location : Type 0 where
  pub path : Text
  pub start : ℕ
  pub end : ℕ

abbrev pub seen_at : Location → List Location → Bool
seen_at l seen = any (λ k. text_eq k.path l.path && k.start == l.start && k.end == l.end) seen

abbrev pub location : ParagraphTarget → Match → Location
location target m = record { path = target.path; start = m.start; end = m.end }

-- f"{target.path}:{start}:{end}:{raw_fragment}"
abbrev pub candidate_name : ParagraphTarget → Match → Text
candidate_name target m =
    target.path ++ (b':' ∷ (str_int m.start ++ (b':' ∷ (str_int m.end ++ (b':' ∷ m.raw)))))

unfoldable pub build_candidate :
    Unicode → ParagraphTarget → Match → Text → Text → DetectionKind → ℕ → FieldCandidate
build_candidate u target m label binding_key kind confidence = record {
  id = take 12 (u.sha1 (candidate_name target m));
  label = label;
  suggested_binding = binding_key;
  raw_fragment = m.raw;
  paragraph_path = target.path;
  source_type = target.source_type;
  detection_kind = kind;
  confidence = confidence;
  preview_text = strip is_space (text target.paragraph);
  value_type = infer_value_type u binding_key label;
  component_type = infer_component_type u binding_key label;
  required = true;
  fragment_start = m.start;
  fragment_end = m.end;
}

-- the accumulators of `_extract_candidates`
abbrev pub Found : Type 0
Found = List FieldCandidate × List Location

abbrev pub found_also : ParagraphTarget → Match → FieldCandidate → Found → Found
found_also target m c (candidates, seen) = (candidates ++ c ∷ [], location target m ∷ seen)

-- the body of each of the three loops
unfoldable pub add_placeholder : Unicode → ParagraphTarget → Match → Found → Found
unfolding build_candidate
add_placeholder u target m found =
    found_also target m
      (build_candidate u target m (label_from_key u m.group) m.group existing_placeholder 99) found

abbrev pub is_marginal : ParagraphTarget → Bool
is_marginal target = str_eq target.source_type "header" || str_eq target.source_type "footer"

unfoldable pub add_bracket : Unicode → ParagraphTarget → Match → Found → Found
unfolding build_candidate
add_bracket u target m found =
    let label = clean_label u m.group in
    if seen_at (location target m) found.1
      || text_eq label []
      || is_citation u.digit label
      || not (has_bracket_field_context (is_marginal target) (text target.paragraph) m.start m.end)
    then found
    else found_also target m
        (build_candidate u target m label (binding_key_from_label u label) bracketed_label 87) found

-- the truth value of an optional text
abbrev pub is_given : Option Text → Bool
is_given none = false
is_given (some []) = false
is_given (some (c ∷ s)) = true

unfoldable pub add_blank_labelled : Unicode → ParagraphTarget → Match → Option Text → Found → Found
unfolding build_candidate
add_blank_labelled u target m none found = found
add_blank_labelled u target m (some []) found = found
add_blank_labelled u target m (some (c ∷ label)) found =
    found_also target m
      (build_candidate u target m (c ∷ label) (binding_key_from_label u (c ∷ label)) blank_span
        (if is_given target.table_header_label then 72 else 64))
      found

unfoldable pub add_blank : Unicode → ParagraphTarget → Match → Found → Found
unfolding add_blank_labelled
add_blank u target m found =
    if seen_at (location target m) found.1
    then found
    else add_blank_labelled u target m
        (derive_blank_label u target.table_header_label (text target.paragraph) m.start) found

abbrev pub add_all : (Match → Found → Found) → List Match → Found → Found
add_all add [] found = found
add_all add (m ∷ ms) found = add_all add ms (add m found)

-- `_extract_candidates`
unfoldable pub extract_candidates : Unicode → ParagraphTarget → Found → Found
unfolding add_placeholder add_bracket add_blank
extract_candidates u target found =
    let t = text target.paragraph in
    if text_eq (strip is_space t) []
    then found
    else add_all (add_blank u target) (find_all blank t) (
        add_all (add_bracket u target) (find_all bracket t)
          (add_all (add_placeholder u target) (find_all placeholder t) found))

unfoldable pub extract_all : Unicode → List ParagraphTarget → Found → Found
unfolding extract_candidates
extract_all u [] found = found
extract_all u (target ∷ targets) found = extract_all u targets (extract_candidates u target found)

-- by paragraph path, start and id
abbrev pub before_candidate : FieldCandidate → FieldCandidate → Bool
before_candidate a b =
    if text_eq a.paragraph_path b.paragraph_path
    then ltb a.fragment_start b.fragment_start
      || a.fragment_start == b.fragment_start && text_le a.id b.id
    else text_le a.paragraph_path b.paragraph_path

unfoldable pub candidates_of : Unicode → Document → List FieldCandidate
unfolding extract_all
candidates_of u document =
    sort_by before_candidate (extract_all u (iter_document_paragraph_targets document) ([], [])).0
