-- ===== src/Import/Selecting.antt =====
-- Selections by hand give bindings that can be filled in the document that was inspected.
use mathlib.Core.Path.{subst}
use document_generation_anek.Prelude.{
  ℕ, ◌<◌, ◌≡◌, refl, sym, ap, ◌∙◌, true, false, not, List, [], ◌∷◌, map, All, All-weaken,
  All-select, any, length, length-take-le, take, drop-all, select, ltb, Bool-cases, inl, inr, arith,
}
use document_generation_anek.Text.{Text, concat, text_eq, is_space, strip, slice}
use document_generation_anek.Json.{Dict, get, put}
use document_generation_anek.Json.Entries.{Entries, put-Entries, get-Entries}
use document_generation_anek.Result.{
  ok, validation, >>=-eq-ok, raise_if, raise_if-eq-ok, or_raise, or_raise-eq-ok,
}
use document_generation_anek.Schema.{ImportBinding, TemplateSchemaResponse}
use document_generation_anek.Storage.{Bytes}
use document_generation_anek.Docx.{
  Document, Paragraph, ParagraphTarget, runs, text, iter_document_paragraph_targets,
  resolve_paragraph_target,
}
use document_generation_anek.Docx.Paths.{targets_resolve}
use document_generation_anek.Rendering.Substitution.{IsValid}
use document_generation_anek.Import.Labels.{Unicode}
use document_generation_anek.Import.Candidates.{DocxLibrary}
use document_generation_anek.Import.Plain.{is_hyperlink, HasNoHyperlinks, plain_text}
use document_generation_anek.Import.Bindings.{
  TemplateImportInspectionResponse, TemplateImportParagraphItem, paragraph_item, inspected, inspect,
  ensure_docx,
}
use document_generation_anek.Import.Confirmation.{
  SelectionItem, by_path, selected_binding, select_one, select_all, templateize_from_selections,
}
use document_generation_anek.Import.Filling.{BindingCanFill}

-- an inspected paragraph stands at its path, with the text of its runs
abbrev pub IsAt : Document → TemplateImportParagraphItem → Type 0
IsAt document p =
    (t : Paragraph) × (resolve_paragraph_target document p.path ≡ ok t)
    × (p.text ≡ concat (runs t))
    × (p.char_count ≡ length p.text)

abbrev pub IsKeyed : Document → Text → TemplateImportParagraphItem → Type 0
IsKeyed document k p = (p.path ≡ k) × IsAt document p

All-map :
    {A B : Type 0} (P : B → Type 0) (f : A → B) (xs : List A)
    → All (λ x. P (f x)) xs
    → All P (map f xs)
All-map P f [] h = tt
All-map P f (x ∷ xs) h = (h.0, All-map P f xs h.1)

-- both of two lists of facts about the same rows
All-both :
    {A : Type 0} (P Q : A → Type 0) (xs : List A) → All P xs → All Q xs → All (λ x. P x × Q x) xs
All-both P Q [] h k = tt
All-both P Q (x ∷ xs) h k = ((h.0, k.0), All-both P Q xs h.1 k.1)

inspected-IsAt :
    (document : Document) → HasNoHyperlinks document → All (IsAt document) (inspected document)
unfolding inspected paragraph_item
inspected-IsAt document plain =
    let wanted = λ (t : ParagraphTarget). not (text_eq (strip is_space (text t.paragraph)) []) in
    All-map (IsAt document) paragraph_item
      (select wanted (iter_document_paragraph_targets document))
      (All-select (λ t. IsAt document (paragraph_item t)) wanted
        (iter_document_paragraph_targets document)
        (All-weaken _ (λ t. IsAt document (paragraph_item t))
          (iter_document_paragraph_targets document)
          (λ t e. (t.paragraph, e.0, plain_text t.paragraph e.1, refl))
          (All-both (λ t. resolve_paragraph_target document t.path ≡ ok t.paragraph)
            (λ t. any is_hyperlink t.paragraph.content ≡ false)
            (iter_document_paragraph_targets document) (targets_resolve document) plain)))

by_path-Entries :
    (document : Document) (ps : List TemplateImportParagraphItem)
    (d : Dict TemplateImportParagraphItem)
    → All (IsAt document) ps
    → Entries (IsKeyed document) d
    → Entries (IsKeyed document) (by_path ps d)
by_path-Entries document [] d h g = g
by_path-Entries document (p ∷ ps) d h g =
    by_path-Entries document ps (put p.path p d) h.1
      (put-Entries (IsKeyed document) p.path p d (refl, h.0) g)

-- where a binding is, and where a selection asks for one
abbrev pub place : ImportBinding → Text × Text × ℕ × ℕ
place b = (b.binding_key, b.paragraph_path, b.fragment_start, b.fragment_end)

abbrev pub chosen : SelectionItem → Text × Text × ℕ × ℕ
chosen s = (s.binding_key, s.paragraph_path, s.fragment_start, s.fragment_end)

abbrev pub Chosen : List SelectionItem → List ImportBinding → Type 0
Chosen selections bindings = map place bindings ≡ map chosen selections

-- a span that holds some text is proper
slice_nonempty : (a b : ℕ) (t : Text) → text_eq (slice a b t) [] ≡ false → a < b
slice_nonempty a b t h = elim (Bool-cases (ltb a b)) [
  | inl e ↦ ground arith
  | inr e ↦
      let gone : slice a b t ≡ [] =
        drop-all a (take b t) (let l = length-take-le b t in ground arith) in
      let k : true ≡ false = rw gone at h in absurd (cc)
]

select_one-CanFill :
    (document : Document) (u : Unicode) (d : Dict TemplateImportParagraphItem) (s : SelectionItem)
    (b : ImportBinding)
    → Entries (IsKeyed document) d
    → select_one u d s ≡ ok b
    → BindingCanFill document b × (place b ≡ chosen s)
unfolding select_one selected_binding IsValid
select_one-CanFill document u d s b entries h =
    let (p, found, h1) = >>=-eq-ok (or_raise (get s.paragraph_path d) validation) _ h in
    let (_, within, h2) = >>=-eq-ok (raise_if (ltb p.char_count s.fragment_end) validation) _ h1 in
    let raw = slice s.fragment_start s.fragment_end p.text in
    let (_, some_text, same) = >>=-eq-ok (raise_if (text_eq raw []) validation) _ h2 in
    let (at, (t, path, content, count)) =
      get-Entries (IsKeyed document) s.paragraph_path p d
        (or_raise-eq-ok (get s.paragraph_path d) validation found) entries in
    let bound = raise_if-eq-ok (ltb p.char_count s.fragment_end) validation within in
    let nonempty = raise_if-eq-ok (text_eq raw []) validation some_text in
    let proper = slice_nonempty s.fragment_start s.fragment_end p.text nonempty in
    let lengths : length p.text ≡ length (concat (runs t)) = ap length content in
    let q : selected_binding u p s ≡ b = cc in
    subst (λ b. BindingCanFill document b × (place b ≡ chosen s)) q
      (
        (
          t,
          subst (λ k. resolve_paragraph_target document k ≡ ok t) at path,
          λ value. (proper, ground arith, ap (slice s.fragment_start s.fragment_end) (sym content)),
        ),
        refl,
      )

select_all-CanFill :
    (document : Document) (u : Unicode) (d : Dict TemplateImportParagraphItem)
    (selections : List SelectionItem) (bindings : List ImportBinding)
    → Entries (IsKeyed document) d
    → select_all u d selections ≡ ok bindings
    → All (BindingCanFill document) bindings × Chosen selections bindings
unfolding select_all
select_all-CanFill document u d [] bindings entries h =
    let q : [] ≡ bindings = cc in
    subst (λ bs. All (BindingCanFill document) bs × Chosen [] bs) q (tt, refl)
select_all-CanFill document u d (s ∷ selections) bindings entries h =
    let (b, one, k) = >>=-eq-ok (select_one u d s) _ h in
    let (bs, rest, same) = >>=-eq-ok (select_all u d selections) _ k in
    let q : b ∷ bs ≡ bindings = cc in
    let (fill, own) = select_one-CanFill document u d s b entries one in
    let (fills, places) = select_all-CanFill document u d selections bs entries rest in
    subst (λ bs. All (BindingCanFill document) bs × Chosen (s ∷ selections) bs) q
      ((fill, fills), ap (λ x. x ∷ map place bs) own ∙ ap (λ xs. chosen s ∷ xs) places)

-- Where the inspected document has no hyperlinks, selected spans that are accepted give one binding for each, in order, at
-- its path and span and under its key, and every binding can be filled in the document: the path resolves, and the span is
-- proper, within the joined runs of the paragraph, and holds the stored fragment there.
pub templateize-CanFill :
    (docx : DocxLibrary) (u : Unicode) (file_name : Text) (content : Bytes) (document : Document)
    (inspection : TemplateImportInspectionResponse) (selections : List SelectionItem)
    (bindings : List ImportBinding) (schema : TemplateSchemaResponse)
    → HasNoHyperlinks document
    → docx.load_docx_document content ≡ ok document
    → inspect docx u file_name content ≡ ok inspection
    → templateize_from_selections u inspection selections ≡ ok (bindings, schema)
    → All (BindingCanFill document) bindings × Chosen selections bindings
unfolding inspect templateize_from_selections
templateize-CanFill docx u file_name content document inspection selections bindings schema plain
      loaded seen made =
    let (_, _, h) = >>=-eq-ok (ensure_docx docx u file_name content) _ seen in
    let (doc, e, k) = >>=-eq-ok (docx.load_docx_document content) _ h in
    let same : doc ≡ document = cc in
    let ps : inspected document ≡ inspection.paragraphs = rw (← same) (cc) in
    let standing : All (IsAt document) inspection.paragraphs =
      subst (All (IsAt document)) ps (inspected-IsAt document plain) in
    let (bs, run, r) =
      >>=-eq-ok (select_all u (by_path inspection.paragraphs []) selections) _ made in
    let q : bs ≡ bindings = cc in
    subst (λ b. All (BindingCanFill document) b × Chosen selections b) q
      (select_all-CanFill document u (by_path inspection.paragraphs []) selections bs
        (by_path-Entries document inspection.paragraphs [] standing tt) run)
