-- ===== src/Docx/Paths.antt =====
-- Every path that `iter_document_paragraph_targets` hands out leads back to its paragraph.
use document_generation_anek.Prelude.{
  ℕ, suc, ◌+◌, ◌≡◌, refl, ap, ◌∙◌, Option, none, some, List, [], ◌∷◌, ◌++◌, false, arith, All,
  All-append, get_elem?, ◌==◌,
}
use Prim.Native.String.{String}
use mathlib.Core.Path.{subst}
use mathlib.Core.List.{append_assoc}
use document_generation_anek.Result.{ok}
use document_generation_anek.Text.{Text}
use document_generation_anek.Text.Split.{split, split-append, split-Free, Free}
use document_generation_anek.Text.Decimal.{str_int, int_of-str_int, str_int-IsDigit, IsDigit}
use document_generation_anek.Docx.{
  Paragraph, Tables, Rows, Cells, no_tables, table, no_rows, row, no_cells, cell, Section, Document,
  ParagraphTarget, under, get_table, get_row, get_cell, header_label, first_cells,
  paragraph_targets, tables_targets, rows_targets, cells_targets, container_targets,
  section_targets, iter_document_paragraph_targets, resolve_in_container, resolve_in_table,
  resolve_segments, resolve_paragraph_target, header_name, footer_name, body_base,
}

zero_add : (k : ℕ) → 0 + k ≡ k
zero_add k = omega arith

Free-digits : (s : Text) → All IsDigit s → Free b'/' s
Free-digits [] h = refl
Free-digits (c ∷ s) h = let r = Free-digits s h.1 in ground arith

-- one more step of a path, as segments
split-under :
    (base : Text) (token n : ℕ)
    → (token == b'/') ≡ false
    → split b'/' (under base token n) ≡ split b'/' base ++ ((token ∷ []) ∷ str_int n ∷ [])
split-under base token n h =
    split-append b'/' base (token ∷ b'/' ∷ str_int n)
    ∙ ap (λ s. split b'/' base ++ s)
        (rw (h, split-Free b'/' (str_int n) (Free-digits (str_int n) (str_int-IsDigit n))) refl)

module _ (document : Document) where
  abbrev IsFound : ParagraphTarget → Type 0
  IsFound t = resolve_paragraph_target document t.path ≡ ok t.paragraph

  -- below `base`, the rest of a path is looked up in the paragraphs and the tables of one container or cell
  abbrev LeadsTo : Text → List Paragraph → Tables → Type 0
  LeadsTo base ps ts =
      (token index : Text) (rest : List Text)
      → resolve_segments document (split b'/' base ++ (token ∷ index ∷ rest))
        ≡ resolve_in_container ps ts (token ∷ index ∷ rest)

  abbrev LeadsToRows : Text → Rows → Type 0
  LeadsToRows base rows =
      (r i c j : Text) (rest : List Text)
      → resolve_segments document (split b'/' base ++ (r ∷ i ∷ c ∷ j ∷ rest))
        ≡ resolve_in_table rows (r ∷ i ∷ c ∷ j ∷ rest)

  found_here :
      (base : Text) (i : ℕ) (ps : List Paragraph) (ts : Tables) (p : Paragraph)
      → LeadsTo base ps ts
      → get_elem? ps i ≡ some p
      → resolve_paragraph_target document (under base b'p' i) ≡ ok p
  unfolding resolve_paragraph_target resolve_in_container
  found_here base i ps ts p to e =
      rw (split-under base b'p' i refl, to (b'p' ∷ []) (str_int i) [], int_of-str_int i) (rw e refl)

  into_table :
      (base : Text) (i : ℕ) (ps : List Paragraph) (ts : Tables) (rows : Rows)
      → LeadsTo base ps ts
      → get_table ts i ≡ some rows
      → LeadsToRows (under base b't' i) rows
  unfolding resolve_in_container resolve_in_table
  into_table base i ps ts rows to e r a c b rest =
      rw
        (
          split-under base b't' i refl,
          append_assoc (split b'/' base) ((b't' ∷ []) ∷ str_int i ∷ []) (r ∷ a ∷ c ∷ b ∷ rest),
          to (b't' ∷ []) (str_int i) (r ∷ a ∷ c ∷ b ∷ rest),
          int_of-str_int i,
        )
        (rw e refl)

  into_cell :
      (base : Text) (r c : ℕ) (rows : Rows) (cells : Cells) (ps : List Paragraph) (ts : Tables)
      → LeadsToRows base rows
      → get_row rows r ≡ some cells
      → get_cell cells c ≡ some (ps, ts)
      → LeadsTo (under (under base b'r' r) b'c' c) ps ts
  unfolding resolve_in_container resolve_in_table
  into_cell base r c rows cells ps ts to e f token index rest =
      rw
        (
          split-under (under base b'r' r) b'c' c refl,
          split-under base b'r' r refl,
          append_assoc (split b'/' base ++ ((b'r' ∷ []) ∷ str_int r ∷ []))
              ((b'c' ∷ []) ∷ str_int c ∷ []) (token ∷ index ∷ rest),
          append_assoc (split b'/' base) ((b'r' ∷ []) ∷ str_int r ∷ [])
              ((b'c' ∷ []) ∷ str_int c ∷ token ∷ index ∷ rest),
          to (b'r' ∷ []) (str_int r) (b'c' ∷ []) (str_int c) (token ∷ index ∷ rest),
          int_of-str_int r,
          int_of-str_int c,
        )
        (rw e (rw f refl))

  paragraphs-IsFound :
      (source : String) (label : Option Text) (base : Text) (i : ℕ) (ps : List Paragraph)
      → ((k : ℕ) (p : Paragraph)
          → get_elem? ps k ≡ some p
          → resolve_paragraph_target document (under base b'p' (i + k)) ≡ ok p)
      → All IsFound (paragraph_targets source label base i ps)
  paragraphs-IsFound source label base i [] found = tt
  paragraphs-IsFound source label base i (p ∷ ps) found = (
    (let m : i + 0 ≡ i = omega arith in
        subst (λ n. resolve_paragraph_target document (under base b'p' n) ≡ ok p) m
          (found 0 p refl)),
    paragraphs-IsFound source label base (suc i) ps λ k q e.
        let m : i + suc k ≡ suc i + k = omega arith in
        subst (λ n. resolve_paragraph_target document (under base b'p' n) ≡ ok q) m
          (found (suc k) q e),
  )

  mutual
    unfolding tables_targets

    tables-IsFound :
        (source : String) (base : Text) (i : ℕ) (ts : Tables)
        → ((k : ℕ) (rows : Rows)
            → get_table ts k ≡ some rows
            → LeadsToRows (under base b't' (i + k)) rows)
        → All IsFound (tables_targets source base i ts)
    tables-IsFound source base i no_tables to = tt
    tables-IsFound source base i (table rows ts) to =
        let m : i + 0 ≡ i = omega arith in
        All-append IsFound _ _
          (rows-IsFound source (under base b't' i) (first_cells rows) 0 rows
            (subst (λ n. LeadsToRows (under base b't' n) rows) m (to 0 rows refl)) rows
            (λ k cells e. rw (zero_add k) e))
          (tables-IsFound source base (suc i) ts λ k rows' e.
            let n : i + suc k ≡ suc i + k = omega arith in
            subst (λ j. LeadsToRows (under base b't' j) rows') n (to (suc k) rows' e))

    rows-IsFound :
        (source : String) (base : Text) (header_cells : Cells) (r : ℕ) (all_rows : Rows)
        → LeadsToRows base all_rows
        → (rows : Rows)
        → ((k : ℕ) (cells : Cells)
            → get_row rows k ≡ some cells
            → get_row all_rows (r + k) ≡ some cells)
        → All IsFound (rows_targets source base header_cells r rows)
    rows-IsFound source base header_cells r all_rows to no_rows same = tt
    rows-IsFound source base header_cells r all_rows to (row cells rows) same =
        let m : r + 0 ≡ r = omega arith in
        All-append IsFound _ _
          (cells-IsFound source base header_cells r 0 all_rows cells to
            (subst (λ n. get_row all_rows n ≡ some cells) m (same 0 cells refl)) cells
            (λ k content e. rw (zero_add k) e))
          (rows-IsFound source base header_cells (suc r) all_rows to rows λ k cells' e.
            let n : r + suc k ≡ suc r + k = omega arith in
            subst (λ j. get_row all_rows j ≡ some cells') n (same (suc k) cells' e))

    cells-IsFound :
        (source : String) (base : Text) (header_cells : Cells) (r c : ℕ) (all_rows : Rows)
        (all_cells : Cells)
        → LeadsToRows base all_rows
        → get_row all_rows r ≡ some all_cells
        → (cells : Cells)
        → ((k : ℕ) (content : List Paragraph × Tables)
            → get_cell cells k ≡ some content
            → get_cell all_cells (c + k) ≡ some content)
        → All IsFound (cells_targets source (under base b'r' r) header_cells r c cells)
    cells-IsFound source base header_cells r c all_rows all_cells to e no_cells same = tt
    cells-IsFound source base header_cells r c all_rows all_cells to e (cell ps ts cells) same =
        let m : c + 0 ≡ c = omega arith in
        let here : get_cell all_cells c ≡ some (ps, ts) =
          subst (λ n. get_cell all_cells n ≡ some (ps, ts)) m (same 0 (ps, ts) refl) in
        let base' = under (under base b'r' r) b'c' c in
        let to' : LeadsTo base' ps ts = into_cell base r c all_rows all_cells ps ts to e here in
        All-append IsFound _ _
          (paragraphs-IsFound source (header_label header_cells r c) base' 0 ps
            λ k p f. rw (zero_add k) (found_here base' k ps ts p to' f))
          (All-append IsFound _ _
            (tables-IsFound source base' 0 ts
              λ k rows f. rw (zero_add k) (into_table base' k ps ts rows to' f))
            (cells-IsFound source base header_cells r (suc c) all_rows all_cells to e cells
              λ k content f.
                let n : c + suc k ≡ suc c + k = omega arith in
                subst (λ j. get_cell all_cells j ≡ some content) n (same (suc k) content f)))

  container-IsFound :
      (source : String) (base : Text) (ps : List Paragraph) (ts : Tables)
      → LeadsTo base ps ts
      → All IsFound (container_targets source base (record { paragraphs = ps; tables = ts }))
  unfolding container_targets
  container-IsFound source base ps ts to =
      All-append IsFound _ _
        (paragraphs-IsFound source none base 0 ps
          λ k p e. rw (zero_add k) (found_here base k ps ts p to e))
        (tables-IsFound source base 0 ts
          λ k rows e. rw (zero_add k) (into_table base k ps ts rows to e))

  body_leads : LeadsTo body_base document.body.paragraphs document.body.tables
  unfolding resolve_segments
  body_leads token index rest = refl

  section_base :
      (name : Text) (i : ℕ)
      → Free b'/' name
      → split b'/' (name ++ (b'/' ∷ str_int i)) ≡ name ∷ str_int i ∷ []
  section_base name i h =
      split-append b'/' name (str_int i)
      ∙ rw
          (
            split-Free b'/' name h,
            split-Free b'/' (str_int i) (Free-digits (str_int i) (str_int-IsDigit i)),
          )
          refl

  header_leads :
      (i : ℕ) (s : Section)
      → get_elem? document.sections i ≡ some s
      → LeadsTo (header_name ++ (b'/' ∷ str_int i)) s.header.paragraphs s.header.tables
  unfolding resolve_segments
  header_leads i s e token index rest =
      ap (λ parts. resolve_segments document (parts ++ (token ∷ index ∷ rest)))
        (section_base header_name i refl)
      ∙ rw (int_of-str_int i) (rw e refl)

  footer_leads :
      (i : ℕ) (s : Section)
      → get_elem? document.sections i ≡ some s
      → LeadsTo (footer_name ++ (b'/' ∷ str_int i)) s.footer.paragraphs s.footer.tables
  unfolding resolve_segments
  footer_leads i s e token index rest =
      ap (λ parts. resolve_segments document (parts ++ (token ∷ index ∷ rest)))
        (section_base footer_name i refl)
      ∙ rw (int_of-str_int i) (rw e refl)

  sections-IsFound :
      (i : ℕ) (sections : List Section)
      → ((k : ℕ) (s : Section)
          → get_elem? sections k ≡ some s
          → get_elem? document.sections (i + k) ≡ some s)
      → All IsFound (section_targets i sections)
  unfolding section_targets
  sections-IsFound i [] same = tt
  sections-IsFound i (s ∷ sections) same =
      let m : i + 0 ≡ i = omega arith in
      let here : get_elem? document.sections i ≡ some s =
        subst (λ n. get_elem? document.sections n ≡ some s) m (same 0 s refl) in
      All-append IsFound _ _
        (container-IsFound "header" (header_name ++ (b'/' ∷ str_int i)) s.header.paragraphs
          s.header.tables λ token index rest. header_leads i s here token index rest)
        (All-append IsFound _ _
          (container-IsFound "footer" (footer_name ++ (b'/' ∷ str_int i)) s.footer.paragraphs
            s.footer.tables λ token index rest. footer_leads i s here token index rest)
          (sections-IsFound (suc i) sections λ k t e.
            let n : i + suc k ≡ suc i + k = omega arith in
            subst (λ j. get_elem? document.sections j ≡ some t) n (same (suc k) t e)))

-- Every paragraph that is listed for a document, in the body, in headers and footers, and in tables nested to any
-- depth, is the one that resolving its path returns.
pub targets_resolve :
    (document : Document)
    → All
        (λ t. resolve_paragraph_target document t.path ≡ ok t.paragraph)
        (iter_document_paragraph_targets document)
unfolding iter_document_paragraph_targets
targets_resolve document =
    All-append (IsFound document) _ _
      (container-IsFound document "body" body_base document.body.paragraphs document.body.tables
        (body_leads document))
      (sections-IsFound document 0 document.sections λ k s e. rw (zero_add k) e)
