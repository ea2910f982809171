-- ===== src/Import/Plain.antt =====
-- Paragraphs without hyperlinks, in which the text that is read and the runs that are written agree.
use document_generation_anek.Prelude.{
  ◌≡◌, refl, ap, Bool, true, false, List, [], ◌∷◌, ◌++◌, any, All,
}
use document_generation_anek.Text.{concat}
use document_generation_anek.Docx.{
  Inline, run, hyperlink, Paragraph, Document, runs_in, runs, text_in, text,
  iter_document_paragraph_targets,
}

abbrev pub is_hyperlink : Inline → Bool
is_hyperlink (run t) = false
is_hyperlink (hyperlink ts) = true

-- no paragraph that is listed for the document holds a hyperlink
abbrev pub HasNoHyperlinks : Document → Type 0
HasNoHyperlinks document =
    All (λ t. any is_hyperlink t.paragraph.content ≡ false)
      (iter_document_paragraph_targets document)

plain_content :
    (content : List Inline)
    → any is_hyperlink content ≡ false
    → text_in content ≡ concat (runs_in content)
plain_content [] h = refl
plain_content (run t ∷ content) h = ap (λ r. t ++ r) (plain_content content h)
plain_content (hyperlink ts ∷ content) h = absurd (cc)

pub plain_text : (p : Paragraph) → any is_hyperlink p.content ≡ false → text p ≡ concat (runs p)
plain_text p h = plain_content p.content h
