-- ===== src/Import/Validity.antt =====
-- Every detected field can be filled in the document it was found in.
use mathlib.Core.Path.{subst}
use document_generation_anek.Prelude.{
  any, ℕ, ◌≡◌, Bool, true, false, not, ◌||◌, Option, none, some, List, [], ◌∷◌, All, All-append,
  All-sort_by, if◌then◌else◌,
}
use document_generation_anek.Text.{Text, concat, text_eq, is_space, strip}
use document_generation_anek.Result.{ok}
use document_generation_anek.Docx.{
  Document, Paragraph, ParagraphTarget, runs, text, iter_document_paragraph_targets,
  resolve_paragraph_target,
}
use document_generation_anek.Docx.Paths.{targets_resolve}
use document_generation_anek.Rendering.{Replacement}
use document_generation_anek.Rendering.Substitution.{IsValid}
use document_generation_anek.Import.Plain.{is_hyperlink, HasNoHyperlinks, plain_text}
use document_generation_anek.Import.Patterns.{
  Match, find_all, placeholder, bracket, blank, is_citation,
}
use document_generation_anek.Import.Spans.{
  IsSpan, find_all-IsSpan, placeholder-IsProper, bracket-IsProper, blank-IsProper,
}
use document_generation_anek.Import.Labels.{Unicode, clean_label, derive_blank_label}
use document_generation_anek.Import.Keys.{
  binding_key_from_label, label_from_key, has_bracket_field_context,
}
use document_generation_anek.Import.Candidates.{
  FieldCandidate, DetectionKind, existing_placeholder, bracketed_label, blank_span, Found,
  found_also, location, seen_at, build_candidate, add_placeholder, add_bracket, add_blank_labelled,
  add_blank, add_all, is_marginal, is_given, extract_candidates, extract_all, before_candidate,
  candidates_of,
}

-- the replacement of a candidate's fragment by a value
abbrev pub filled_by : Text → FieldCandidate → Replacement
filled_by value c = record {
  start = c.fragment_start;
  end = c.fragment_end;
  raw_fragment = c.raw_fragment;
  value = value;
}

-- its path leads to a paragraph of the document, in whose runs, which `render` writes, the fragment stands at its place
abbrev pub CanFill : Document → FieldCandidate → Type 0
CanFill document c =
    (p : Paragraph) × (resolve_paragraph_target document c.paragraph_path ≡ ok p)
    × ((value : Text) → IsValid (concat (runs p)) (filled_by value c))

module _ (document : Document) (u : Unicode) (target : ParagraphTarget)
    (found_at : resolve_paragraph_target document target.path ≡ ok target.paragraph)
    (plain : any is_hyperlink target.paragraph.content ≡ false) where
  abbrev AllFill : Found → Type 0
  AllFill found = All (CanFill document) found.0

  built :
      (m : Match) (label key : Text) (kind : DetectionKind) (confidence : ℕ)
      → IsSpan (text target.paragraph) m
      → CanFill document (build_candidate u target m label key kind confidence)
  unfolding build_candidate IsValid
  built m label key kind confidence (proper, within, same) = (
    target.paragraph,
    found_at,
    λ value.
        subst
          (λ t. IsValid t (filled_by value (build_candidate u target m label key kind confidence)))
          (plain_text target.paragraph plain) (proper, within, same),
  )

  also :
      (m : Match) (c : FieldCandidate) (found : Found)
      → CanFill document c
      → AllFill found
      → AllFill (found_also target m c found)
  also m c (candidates, seen) fills h =
      All-append (CanFill document) candidates (c ∷ []) h (fills, tt)

  placeholder_step :
      (m : Match) (found : Found)
      → IsSpan (text target.paragraph) m
      → AllFill found
      → AllFill (add_placeholder u target m found)
  unfolding add_placeholder
  placeholder_step m found s h =
      also m (build_candidate u target m (label_from_key u m.group) m.group existing_placeholder 99)
        found (built m (label_from_key u m.group) m.group existing_placeholder 99 s) h

  kept_or_added :
      (b : Bool) (found other : Found)
      → AllFill found
      → AllFill other
      → AllFill (if b then found else other)
  kept_or_added true found other h k = h
  kept_or_added false found other h k = k

  bracket_step :
      (m : Match) (found : Found)
      → IsSpan (text target.paragraph) m
      → AllFill found
      → AllFill (add_bracket u target m found)
  unfolding add_bracket
  bracket_step m found s h =
      let label = clean_label u m.group in
      kept_or_added
        (seen_at (location target m) found.1
          || text_eq label []
          || is_citation u.digit label
          || not (
              has_bracket_field_context (is_marginal target) (text target.paragraph) m.start m.end))
        found _ h
        (also m
          (build_candidate u target m label (binding_key_from_label u label) bracketed_label 87)
          found (built m label (binding_key_from_label u label) bracketed_label 87 s) h)

  blank_labelled :
      (m : Match) (label : Option Text) (found : Found)
      → IsSpan (text target.paragraph) m
      → AllFill found
      → AllFill (add_blank_labelled u target m label found)
  unfolding add_blank_labelled
  blank_labelled m none found s h = h
  blank_labelled m (some []) found s h = h
  blank_labelled m (some (c ∷ label)) found s h =
      also m _ found
        (built m (c ∷ label) (binding_key_from_label u (c ∷ label)) blank_span
          (if is_given target.table_header_label then 72 else 64) s)
        h

  blank_step :
      (m : Match) (found : Found)
      → IsSpan (text target.paragraph) m
      → AllFill found
      → AllFill (add_blank u target m found)
  unfolding add_blank
  blank_step m found s h = kept_or_added (seen_at (location target m) found.1) found _ h (
      blank_labelled m
        (derive_blank_label u target.table_header_label (text target.paragraph) m.start) found s h)

  loop :
      (add : Match → Found → Found)
      → ((m : Match) (found : Found)
          → IsSpan (text target.paragraph) m
          → AllFill found
          → AllFill (add m found))
      → (ms : List Match) (found : Found) → All (IsSpan (text target.paragraph)) ms
      → AllFill found
      → AllFill (add_all add ms found)
  loop add step [] found spans h = h
  loop add step (m ∷ ms) found spans h =
      loop add step ms (add m found) spans.1 (step m found spans.0 h)

  extract_step : (found : Found) → AllFill found → AllFill (extract_candidates u target found)
  unfolding extract_candidates
  extract_step found h =
      let t = text target.paragraph in
      kept_or_added (text_eq (strip is_space t) []) found _ h (
        loop (add_blank u target) blank_step (find_all blank t) _
          (find_all-IsSpan blank blank-IsProper t)
          (loop (add_bracket u target) bracket_step (find_all bracket t) _
            (find_all-IsSpan bracket bracket-IsProper t)
            (loop (add_placeholder u target) placeholder_step (find_all placeholder t) found
              (find_all-IsSpan placeholder placeholder-IsProper t) h)))

extract_all-CanFill :
    (document : Document) (u : Unicode) (targets : List ParagraphTarget) (found : Found)
    → All (λ t. resolve_paragraph_target document t.path ≡ ok t.paragraph) targets
    → All (λ t. any is_hyperlink t.paragraph.content ≡ false) targets
    → All (CanFill document) found.0
    → All (CanFill document) (extract_all u targets found).0
unfolding extract_all
extract_all-CanFill document u [] found paths plain h = h
extract_all-CanFill document u (t ∷ ts) found paths plain h =
    extract_all-CanFill document u ts (extract_candidates u t found) paths.1 plain.1
      (extract_step document u t paths.0 plain.0 found h)

-- Every field that the analysis of a document without hyperlinks reports can be filled there: its path resolves to a
-- paragraph of the document, and in the joined runs of that paragraph the fragment stands at the reported span, which is
-- proper and within them.
pub candidates_of-CanFill :
    (u : Unicode) (document : Document)
    → HasNoHyperlinks document
    → All (CanFill document) (candidates_of u document)
unfolding candidates_of
candidates_of-CanFill u document plain = All-sort_by (CanFill document) before_candidate _ (
    extract_all-CanFill document u (iter_document_paragraph_targets document) ([], [])
      (targets_resolve document) plain tt)
