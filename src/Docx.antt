-- ===== src/Docx.antt =====
-- app/services/docx_template_import_utils.py: the paragraphs of a DOCX document, their paths, and the way
-- back from a path.
pub mod Paths
mod Tests
use Prim.Native.String.{String}
use document_generation_anek.Prelude.{
  ℕ, zero, suc, ◌+◌, ◌-◌, Bool, true, false, not, ◌||◌, Option, none, some, List, [], ◌∷◌, ◌++◌,
  map, ltb, length, get_elem?, if◌then◌else◌,
}
use document_generation_anek.Prelude.Int.{ℤ, pos, negsuc}
use document_generation_anek.Result.{
  Result, ok, err, value_error, fault, ◌>>=◌, ◌>>◌, raise_if, or_raise,
}
use document_generation_anek.Text.{Text, text_eq, concat, is_space, strip}
use document_generation_anek.Text.Split.{split, join}
use document_generation_anek.Text.Decimal.{str_int, int_of}

-- what a paragraph holds, in order: runs, and hyperlinks with runs of their own
pub data Inline : Type 0 where
  run : Text → Inline
  hyperlink : List Text → Inline

-- a paragraph object of python-docx: `id` tells two objects with the same text apart
pub record Paragraph : Type 0 where
  pub id : ℕ
  pub content : List Inline

-- `Paragraph.runs` of python-docx has the runs that stand in the paragraph itself, not those of its hyperlinks
abbrev pub runs_in : List Inline → List Text
runs_in [] = []
runs_in (run t ∷ content) = t ∷ runs_in content
runs_in (hyperlink ts ∷ content) = runs_in content

abbrev pub runs : Paragraph → List Text
runs p = runs_in p.content

-- `Paragraph.text` has the text of the hyperlinks too
abbrev pub text_in : List Inline → Text
text_in [] = []
text_in (run t ∷ content) = t ++ text_in content
text_in (hyperlink ts ∷ content) = concat ts ++ text_in content

abbrev pub text : Paragraph → Text
text p = text_in p.content

-- A table is its rows, a row its cells, and a cell has paragraphs and nested tables.
mutual
  pub data Tables : Type 0 where
    no_tables : Tables
    table : Rows → Tables → Tables

  pub data Rows : Type 0 where
    no_rows : Rows
    row : Cells → Rows → Rows

  pub data Cells : Type 0 where
    no_cells : Cells
    cell : List Paragraph → Tables → Cells → Cells

pub record Container : Type 0 where
  pub paragraphs : List Paragraph
  pub tables : Tables

pub record Section : Type 0 where
  pub header : Container
  pub footer : Container

pub record Document : Type 0 where
  pub body : Container
  pub sections : List Section

pub record ParagraphTarget : Type 0 where
  pub path : Text
  pub paragraph : Paragraph
  pub source_type : String
  pub table_header_label : Option Text

-- f"{base}/{token}/{index}"
abbrev pub under : Text → ℕ → ℕ → Text
under base token index = base ++ (b'/' ∷ token ∷ b'/' ∷ str_int index)

abbrev pub get_table : Tables → ℕ → Option Rows
get_table no_tables i = none
get_table (table rows ts) zero = some rows
get_table (table rows ts) (suc i) = get_table ts i

abbrev pub get_row : Rows → ℕ → Option Cells
get_row no_rows i = none
get_row (row cells rows) zero = some cells
get_row (row cells rows) (suc i) = get_row rows i

abbrev pub get_cell : Cells → ℕ → Option (List Paragraph × Tables)
get_cell no_cells i = none
get_cell (cell ps ts cells) zero = some (ps, ts)
get_cell (cell ps ts cells) (suc i) = get_cell cells i

-- the items of a generator that `_join_nonempty_text` keeps
abbrev pub nonempty_parts : List Text → List Text
nonempty_parts [] = []
nonempty_parts (t ∷ ts) =
    let rest = nonempty_parts ts in elim (strip is_space t) [ [] ↦ rest | c ∷ s ↦ (c ∷ s) ∷ rest ]

unfoldable pub join_nonempty_text : List Text → Text
join_nonempty_text parts = join b' ' (nonempty_parts parts)

-- `label or None`
abbrev pub or_none : Text → Option Text
or_none [] = none
or_none (c ∷ s) = some (c ∷ s)

abbrev pub cell_label : Option (List Paragraph × Tables) → Option Text
unfolding join_nonempty_text
cell_label none = none
cell_label (some (ps, ts)) = or_none (join_nonempty_text (map text ps))

-- the text of the first row's cell above, for cells that are not in the first row
abbrev pub header_label : Cells → ℕ → ℕ → Option Text
header_label header_cells zero cell_index = none
header_label header_cells (suc r) cell_index = cell_label (get_cell header_cells cell_index)

abbrev pub first_cells : Rows → Cells
first_cells no_rows = no_cells
first_cells (row cells rows) = cells

abbrev pub paragraph_targets :
    String → Option Text → Text → ℕ → List Paragraph → List ParagraphTarget
paragraph_targets source label base i [] = []
paragraph_targets source label base i (p ∷ ps) =
    record {
      path = under base b'p' i;
      paragraph = p;
      source_type = source;
      table_header_label = label;
    }
    ∷ paragraph_targets source label base (suc i) ps

-- `_iter_table_paragraphs`, and the loops over tables, rows and cells around and in it
unfoldable mutual
  pub tables_targets : String → Text → ℕ → Tables → List ParagraphTarget
  tables_targets source base i no_tables = []
  tables_targets source base i (table rows ts) =
      rows_targets source (under base b't' i) (first_cells rows) 0 rows
      ++ tables_targets source base (suc i) ts

  pub rows_targets : String → Text → Cells → ℕ → Rows → List ParagraphTarget
  rows_targets source base header_cells r no_rows = []
  rows_targets source base header_cells r (row cells rows) =
      cells_targets source (under base b'r' r) header_cells r 0 cells
      ++ rows_targets source base header_cells (suc r) rows

  pub cells_targets : String → Text → Cells → ℕ → ℕ → Cells → List ParagraphTarget
  cells_targets source base header_cells r c no_cells = []
  cells_targets source base header_cells r c (cell ps ts cells) =
      paragraph_targets source (header_label header_cells r c) (under base b'c' c) 0 ps
      ++ (tables_targets source (under base b'c' c) 0 ts
          ++ cells_targets source base header_cells r (suc c) cells)

-- `_iter_container_paragraphs`
unfoldable pub container_targets : String → Text → Container → List ParagraphTarget
container_targets source base container =
    paragraph_targets source none base 0 container.paragraphs
    ++ tables_targets source base 0 container.tables

abbrev pub body_base : Text
body_base = b'b' ∷ b'o' ∷ b'd' ∷ b'y' ∷ []

abbrev pub header_name : Text
header_name = b'h' ∷ b'e' ∷ b'a' ∷ b'd' ∷ b'e' ∷ b'r' ∷ []

abbrev pub footer_name : Text
footer_name = b'f' ∷ b'o' ∷ b'o' ∷ b't' ∷ b'e' ∷ b'r' ∷ []

abbrev pub section_targets : ℕ → List Section → List ParagraphTarget
unfolding container_targets
section_targets i [] = []
section_targets i (s ∷ sections) =
    container_targets "header" (header_name ++ (b'/' ∷ str_int i)) s.header
    ++ (container_targets "footer" (footer_name ++ (b'/' ∷ str_int i)) s.footer
        ++ section_targets (suc i) sections)

unfoldable pub iter_document_paragraph_targets : Document → List ParagraphTarget
unfolding container_targets
iter_document_paragraph_targets document =
    container_targets "body" body_base document.body ++ section_targets 0 document.sections

-- `items[index]` for a list of `n` items: a negative index counts from the end
abbrev pub item {ℓ} : {A : Type ℓ} → ℕ → (ℕ → Option A) → ℤ → Option A
item n get (pos i) = get i
item n get (negsuc k) = if ltb k n then get (n - suc k) else none

abbrev pub count_tables : Tables → ℕ
count_tables no_tables = 0
count_tables (table rows ts) = suc (count_tables ts)

abbrev pub count_rows : Rows → ℕ
count_rows no_rows = 0
count_rows (row cells rows) = suc (count_rows rows)

abbrev pub count_cells : Cells → ℕ
count_cells no_cells = 0
count_cells (cell ps ts cells) = suc (count_cells cells)

abbrev pub is_empty {ℓ} : {A : Type ℓ} → List A → Bool
is_empty [] = true
is_empty (x ∷ xs) = false

-- `_resolve_in_container`, which the end of `_resolve_in_table` repeats for the cell, and `_resolve_in_table`.
-- An index out of range is an IndexError, which nothing turns into an error of the application.
unfoldable mutual
  pub resolve_in_container : List Paragraph → Tables → List Text → Result Paragraph
  resolve_in_container ps ts [] = err value_error
  resolve_in_container ps ts (token ∷ []) = err value_error
  resolve_in_container ps ts (token ∷ index ∷ remaining) = do
    i ← or_raise (int_of index) value_error
    if text_eq token (b'p' ∷ [])
        then (do
          raise_if (not (is_empty remaining)) value_error
          or_raise (item (length ps) (get_elem? ps) i) fault)
        else if text_eq token (b't' ∷ [])
        then (or_raise (item (count_tables ts) (get_table ts) i) fault >>= λ rows.
            resolve_in_table rows remaining)
        else err value_error

  pub resolve_in_table : Rows → List Text → Result Paragraph
  resolve_in_table rows (r ∷ i ∷ c ∷ j ∷ remaining) = do
    raise_if (not (text_eq r (b'r' ∷ [])) || not (text_eq c (b'c' ∷ []))) value_error
    row_index ← or_raise (int_of i) value_error
    cell_index ← or_raise (int_of j) value_error
    cells ← or_raise (item (count_rows rows) (get_row rows) row_index) fault
    content ← or_raise (item (count_cells cells) (get_cell cells) cell_index) fault
    resolve_in_container content.0 content.1 remaining
  resolve_in_table rows _ = err value_error

abbrev pub section_at : Document → ℤ → Option Section
section_at document i = item (length document.sections) (get_elem? document.sections) i

-- the segments of a path, from the root's name on
unfoldable pub resolve_segments : Document → List Text → Result Paragraph
resolve_segments document (root ∷ next ∷ more ∷ rest) =
    if text_eq root body_base
    then resolve_in_container document.body.paragraphs document.body.tables (next ∷ more ∷ rest)
    else if text_eq root header_name
    then (do
      i ← or_raise (int_of next) value_error
      section ← or_raise (section_at document i) fault
      resolve_in_container section.header.paragraphs section.header.tables (more ∷ rest))
    else if text_eq root footer_name
    then (do
      i ← or_raise (int_of next) value_error
      section ← or_raise (section_at document i) fault
      resolve_in_container section.footer.paragraphs section.footer.tables (more ∷ rest))
    else err value_error
resolve_segments document _ = err value_error

unfoldable pub resolve_paragraph_target : Document → Text → Result Paragraph
unfolding resolve_segments
resolve_paragraph_target document path = resolve_segments document (split b'/' path)
