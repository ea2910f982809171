-- ===== src/Rendering.antt =====
-- app/services/generation/docx_template_render_service.py: the values of an imported template, and the
-- replacement of text spans in the runs of a paragraph.
pub mod Spans
pub mod Substitution
pub mod Payload
pub mod Values
mod Tests
use document_generation_anek.Prelude.{
  ℕ, ◌+◌, ◌-◌, Bool, true, false, not, ◌&&◌, ◌||◌, List, [], ◌∷◌, ◌++◌, take, drop, length, sort_by,
  leb, ltb, if◌then◌else◌,
}
use document_generation_anek.Result.{Result, ok, err, validation, ◌>>=◌, ◌>>◌, raise_if}
use document_generation_anek.Text.{Text, text_eq, slice, concat}

-- one entry of `bindings_by_path`, positions as the stored bindings hold them (never negative)
pub record Replacement : Type 0 where
  pub start : ℕ
  pub end : ℕ
  pub raw_fragment : Text
  pub value : Text

-- the joined `pieces` of one overlapping run, which starts at `run_start`
unfoldable pub run_text : Replacement → Bool → ℕ → Text → Text
run_text r inserted run_start text =
    (if ltb run_start r.start then take (r.start - run_start) text else [])
    ++ ((if inserted then [] else r.value)
        ++ (if ltb r.end (run_start + length text) then drop (r.end - run_start) text else []))

unfoldable pub overlaps : Replacement → ℕ → Text → Bool
overlaps r run_start text = not (leb (run_start + length text) r.start || leb r.end run_start)

-- the `for run in runs` loop: the new texts, and whether the value was inserted
unfoldable pub replace_runs : Replacement → Bool → ℕ → List Text → List Text × Bool
unfolding run_text overlaps
replace_runs r inserted cursor [] = ([], inserted)
replace_runs r inserted cursor (text ∷ runs) =
    if overlaps r cursor text
    then (let (rest, done) = replace_runs r true (cursor + length text) runs in
        (run_text r inserted cursor text ∷ rest, done))
    else (let (rest, done) = replace_runs r inserted (cursor + length text) runs in
        (text ∷ rest, done))

-- `_replace_span_in_runs`
unfoldable pub replace_span : List Text → Replacement → Result (List Text)
unfolding replace_runs
replace_span runs r = do
  let full_text = concat runs
  raise_if (ltb (length full_text) r.end || leb r.end r.start) validation
  raise_if (not (text_eq (slice r.start r.end full_text) r.raw_fragment)) validation
  let (runs', inserted) = replace_runs r false 0 runs
  raise_if (not inserted) validation
  ok runs'

-- the replacements of one paragraph, in the order given
unfoldable pub apply_all : List Text → List Replacement → Result (List Text)
apply_all runs [] = ok runs
apply_all runs (r ∷ rs) = replace_span runs r >>= λ runs'. apply_all runs' rs

-- `sorted(replacements, key=lambda item: item["start"], reverse=True)`
unfoldable pub later_first : Replacement → Replacement → Bool
later_first r s = leb s.start r.start

unfoldable pub apply_sorted : List Text → List Replacement → Result (List Text)
apply_sorted runs rs = apply_all runs (sort_by later_first rs)
