-- ===== src/Templates/Code.antt =====
-- `_normalize_code` of app/services/template_service.py: the slug that a template's code is stored as. `str.lower` is a
-- parameter.
pub mod Slug
use document_generation_anek.Prelude.{
  ℕ, zero, suc, Bool, true, false, ◌&&◌, ◌||◌, List, [], ◌∷◌, length, ◌==◌, if◌then◌else◌,
}
use document_generation_anek.Text.{Text, text_eq, is_space, strip, replace_char}
use document_generation_anek.Result.{Result, ok, err, validation, fault, ◌>>=◌, ◌>>◌, raise_if}

abbrev pub is_dash : ℕ → Bool
is_dash c = c == b'-'

-- `"--" in s`, when a dash stands in front of `s` or not
abbrev pub pair_in : Bool → Text → Bool
pair_in dash [] = false
pair_in dash (c ∷ s) = dash && is_dash c || pair_in (is_dash c) s

abbrev pub has_pair : Text → Bool
has_pair s = pair_in false s

-- `s.replace("--", "-")`, from the left; `held` is a dash that has no partner yet
abbrev pub halve : Bool → Text → Text
halve false [] = []
halve true [] = b'-' ∷ []
halve false (c ∷ s) =
    let pair = halve true s in let rest = c ∷ halve false s in if is_dash c then pair else rest
halve true (c ∷ s) =
    let pair = b'-' ∷ halve false s in
    let rest = b'-' ∷ c ∷ halve false s in if is_dash c then pair else rest

-- `while "--" in normalized`; `fault` is raised where the fuel runs out
unfoldable pub squeeze : ℕ → Text → Result Text
squeeze zero s = err fault
squeeze (suc fuel) s = elim (has_pair s) [ true ↦ squeeze fuel (halve false s) | false ↦ ok s ]

-- TemplateService._normalize_code
unfoldable pub normalize_code : (Text → Text) → Text → Result Text
unfolding squeeze
normalize_code lower code = do
  let slug = replace_char b'_' b'-' (replace_char b' ' b'-' (lower (strip is_space code)))
  squeezed ← squeeze (suc (length slug)) slug
  let normalized = strip is_dash squeezed
  raise_if (text_eq normalized []) validation
  ok normalized
