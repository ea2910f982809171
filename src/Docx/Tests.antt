-- ===== src/Docx/Tests.antt =====
-- Examples of the paths of a document.
use document_generation_anek.Prelude.{◌≡◌, [], ◌∷◌, All}
use document_generation_anek.Result.{ok}
use document_generation_anek.Docx.{
  run, hyperlink, Paragraph, no_tables, table, no_rows, row, no_cells, cell, Document,
  iter_document_paragraph_targets, resolve_paragraph_target,
}
use document_generation_anek.Docx.Paths.{targets_resolve}

abbrev title : Paragraph
title = record { id = 1; content = run (b'T' ∷ []) ∷ [] }

abbrev in_cell : Paragraph
in_cell = record { id = 2; content = run (b'n' ∷ []) ∷ hyperlink ((b'o' ∷ []) ∷ []) ∷ [] }

-- one paragraph, and a table with one row and one cell
abbrev letter : Document
letter = record {
  body = record {
    paragraphs = title ∷ [];
    tables = table (row (cell (in_cell ∷ []) no_tables no_cells) no_rows) no_tables;
  };
  sections = [];
}

targets_resolve_example :
    All
      (λ t. resolve_paragraph_target letter t.path ≡ ok t.paragraph)
      (iter_document_paragraph_targets letter)
targets_resolve_example = targets_resolve letter
