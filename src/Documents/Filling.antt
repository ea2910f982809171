-- ===== src/Documents/Filling.antt =====
-- `render` of app/services/generation/docx_template_render_service.py, over a whole document. The texts that paragraphs were
-- given are kept by the paragraph's identity, since two paths may lead to one paragraph.
use document_generation_anek.Prelude.{
  ℕ, Option, none, some, List, [], ◌∷◌, ◌++◌, ◌==◌, if◌then◌else◌,
}
use document_generation_anek.Text.{Text}
use document_generation_anek.Schema.{ImportBinding}
use document_generation_anek.Json.{Dict, get, put}
use document_generation_anek.Result.{Result, ok, ◌>>=◌}
use document_generation_anek.Docx.{Document, Paragraph, runs_in, resolve_paragraph_target}
use document_generation_anek.Rendering.{Replacement, apply_sorted}

-- the runs that were assigned, by paragraph
abbrev pub Runs : Type 0
Runs = List (ℕ × List Text)

abbrev pub runs_of : Runs → Paragraph → List Text
runs_of [] p = runs_in p.content
runs_of ((id, runs) ∷ rest) p = if id == p.id then runs else runs_of rest p

unfoldable pub replacement_of : ImportBinding → Text → Replacement
replacement_of b value = record {
  start = b.fragment_start;
  end = b.fragment_end;
  raw_fragment = b.raw_fragment;
  value = value;
}

abbrev pub listed : Option (List Replacement) → List Replacement
listed none = []
listed (some rs) = rs

-- a binding without a value is passed over
abbrev pub add_replacement :
    ImportBinding → Option (Option Text) → Dict (List Replacement) → Dict (List Replacement)
add_replacement b none d = d
add_replacement b (some none) d = d
add_replacement b (some (some value)) d =
    put b.paragraph_path (listed (get b.paragraph_path d) ++ replacement_of b value ∷ []) d

-- `bindings_by_path`
unfoldable pub bindings_by_path :
    List ImportBinding → Dict (Option Text) → Dict (List Replacement) → Dict (List Replacement)
bindings_by_path [] values d = d
bindings_by_path (b ∷ bindings) values d =
    bindings_by_path bindings values (add_replacement b (get b.binding_key values) d)

unfoldable pub fill_path : Document → Text → List Replacement → Runs → Result Runs
fill_path document path replacements assigned = do
  paragraph ← resolve_paragraph_target document path
  runs ← apply_sorted (runs_of assigned paragraph) replacements
  ok ((paragraph.id, runs) ∷ assigned)

unfoldable pub fill_paths : Document → Dict (List Replacement) → Runs → Result Runs
unfolding fill_path
fill_paths document [] assigned = ok assigned
fill_paths document ((path, replacements) ∷ rest) assigned =
    fill_path document path replacements assigned >>= fill_paths document rest

-- the runs of the filled document
unfoldable pub fill_document : Document → List ImportBinding → Dict (Option Text) → Result Runs
unfolding bindings_by_path fill_paths
fill_document document bindings values =
    fill_paths document (bindings_by_path bindings values []) []
