-- ===== src/Import/Filling.antt =====
-- Bindings that are confirmed, or selected by hand, can be filled in the document that they were made for.
use mathlib.Core.Path.{subst}
use document_generation_anek.Prelude.{◌≡◌, refl, ap, List, [], ◌∷◌, map, All}
use document_generation_anek.Text.{Text, concat}
use document_generation_anek.Json.{Dict, get, put}
use document_generation_anek.Json.Entries.{Entries, put-Entries, get-Entries}
use document_generation_anek.Result.{ok, validation, >>=-eq-ok, or_raise, or_raise-eq-ok}
use document_generation_anek.Schema.{ImportBinding, TemplateSchemaResponse}
use document_generation_anek.Storage.{Bytes}
use document_generation_anek.Docx.{Document, Paragraph, runs, resolve_paragraph_target}
use document_generation_anek.Rendering.{Replacement}
use document_generation_anek.Rendering.Substitution.{IsValid}
use document_generation_anek.Import.Labels.{Unicode}
use document_generation_anek.Import.Candidates.{DocxLibrary, FieldCandidate, candidates_of}
use document_generation_anek.Import.Plain.{HasNoHyperlinks}
use document_generation_anek.Import.Validity.{CanFill, candidates_of-CanFill}
use document_generation_anek.Import.Bindings.{TemplateImportAnalysisResponse, analyze, ensure_docx}
use document_generation_anek.Import.Confirmation.{
  ConfirmationItem, by_id, confirmed_binding, confirm_all, confirm_bindings,
}

-- what `render` replaces for a binding
abbrev pub replacement : Text → ImportBinding → Replacement
replacement value b = record {
  start = b.fragment_start;
  end = b.fragment_end;
  raw_fragment = b.raw_fragment;
  value = value;
}

abbrev pub BindingCanFill : Document → ImportBinding → Type 0
BindingCanFill document b =
    (p : Paragraph) × (resolve_paragraph_target document b.paragraph_path ≡ ok p)
    × ((value : Text) → IsValid (concat (runs p)) (replacement value b))

by_id-Entries :
    (document : Document) (cs : List FieldCandidate) (d : Dict FieldCandidate)
    → All (CanFill document) cs
    → Entries (λ k c. CanFill document c) d
    → Entries (λ k c. CanFill document c) (by_id cs d)
by_id-Entries document [] d h g = g
by_id-Entries document (c ∷ cs) d h g =
    by_id-Entries document cs (put c.id c d) h.1
      (put-Entries (λ k c. CanFill document c) c.id c d h.0 g)

-- each binding is that of its confirmation
abbrev pub Keys : List ConfirmationItem → List ImportBinding → Type 0
Keys items bindings = map (λ b. b.binding_key) bindings ≡ map (λ i. i.binding_key) items

confirm_all-CanFill :
    (document : Document) (d : Dict FieldCandidate) (items : List ConfirmationItem)
    (bindings : List ImportBinding)
    → Entries (λ k c. CanFill document c) d
    → confirm_all d items ≡ ok bindings
    → All (BindingCanFill document) bindings × Keys items bindings
unfolding confirm_all confirmed_binding IsValid
confirm_all-CanFill document d [] bindings fills h =
    let q : [] ≡ bindings = cc in
    (
      subst (All (BindingCanFill document)) q tt,
      subst (λ bs. map (λ b. b.binding_key) bs ≡ []) q refl,
    )
confirm_all-CanFill document d (i ∷ items) bindings fills h =
    let (c, found, k) = >>=-eq-ok (or_raise (get i.candidate_id d) validation) _ h in
    let (bs, rest, same) = >>=-eq-ok (confirm_all d items) _ k in
    let q : confirmed_binding c i ∷ bs ≡ bindings = cc in
    let (more, keys) = confirm_all-CanFill document d items bs fills rest in
    let e = or_raise-eq-ok (get i.candidate_id d) validation found in
    let fill = get-Entries (λ k c. CanFill document c) i.candidate_id c d e fills in
    (
      subst (All (BindingCanFill document)) q (fill, more),
      subst (λ x. map (λ b. b.binding_key) x ≡ i.binding_key ∷ map (λ j. j.binding_key) items) q
          (ap (λ r. i.binding_key ∷ r) keys),
    )

-- Where the analyzed document has no hyperlinks, confirming fields of the analysis gives one binding for each confirmation,
-- in order and under its key, and every binding can be filled in the document: its path resolves, and its fragment stands
-- at its span in the joined runs of the paragraph.
pub confirm_bindings-CanFill :
    (docx : DocxLibrary) (u : Unicode) (file_name : Text) (content : Bytes) (document : Document)
    (analysis : TemplateImportAnalysisResponse) (confirmations : List ConfirmationItem)
    (bindings : List ImportBinding) (schema : TemplateSchemaResponse)
    → HasNoHyperlinks document
    → docx.load_docx_document content ≡ ok document
    → analyze docx u file_name content ≡ ok analysis
    → confirm_bindings analysis confirmations ≡ ok (bindings, schema)
    → All (BindingCanFill document) bindings × Keys confirmations bindings
unfolding analyze confirm_bindings
confirm_bindings-CanFill docx u file_name content document analysis confirmations bindings schema
      plain loaded analyzed confirmed =
    let (_, _, h) = >>=-eq-ok (ensure_docx docx u file_name content) _ analyzed in
    let (doc, e, k) = >>=-eq-ok (docx.load_docx_document content) _ h in
    let same : doc ≡ document = cc in
    let cs : candidates_of u document ≡ analysis.candidates = rw (← same) (cc) in
    let fills : All (CanFill document) analysis.candidates =
      subst (All (CanFill document)) cs (candidates_of-CanFill u document plain) in
    let (bs, run, r) =
      >>=-eq-ok (confirm_all (by_id analysis.candidates []) confirmations) _ confirmed in
    let q : bs ≡ bindings = cc in
    subst (λ b. All (BindingCanFill document) b × Keys confirmations b) q
      (confirm_all-CanFill document (by_id analysis.candidates []) confirmations bs
        (by_id-Entries document analysis.candidates [] fills tt) run)
