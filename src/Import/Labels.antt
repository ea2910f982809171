-- ===== src/Import/Labels.antt =====
-- Labels, binding keys and kinds of the detected fields. The tables of Unicode (lower and title case, digits) and SHA-1 are
-- parameters.
use document_generation_anek.Prelude.{
  ℕ, Bool, true, false, ◌&&◌, ◌||◌, Option, none, some, List, [], ◌∷◌, ◌++◌, any, take, ◌==◌,
  if◌then◌else◌,
}
use document_generation_anek.Text.{Text, codes, text_eq, is_space, strip, lstrip, rstrip}
use document_generation_anek.Docx.{or_none}

-- `str.lower`, `str.title`, `\d` of a regular expression, and the hexadecimal SHA-1 digest of the UTF-8 bytes
pub record Unicode : Type 0 where
  pub lower : Text → Text
  pub title : Text → Text
  pub digit : ℕ → Bool
  pub sha1 : Text → Text

-- `s.startswith(t)`, `t in s` and `s.endswith(t)`
abbrev pub has_prefix : Text → Text → Bool
has_prefix [] s = true
has_prefix (c ∷ t) [] = false
has_prefix (c ∷ t) (d ∷ s) = c == d && has_prefix t s

abbrev pub contains : Text → Text → Bool
contains t [] = has_prefix t []
contains t (c ∷ s) = has_prefix t (c ∷ s) || contains t s

abbrev pub contains_any : List Text → Text → Bool
contains_any ts s = any (λ t. contains t s) ts

-- `re.sub(r"\s+", " ", s)`; the flag tells that a blank was just passed
abbrev pub blanks_to_one : Bool → Text → Text
blanks_to_one b [] = []
blanks_to_one b (c ∷ s) =
    let again = blanks_to_one true s in
    let rest = blanks_to_one false s in
    if is_space c then (if b then again else b' ' ∷ again) else c ∷ rest

abbrev pub is_label_edge : ℕ → Bool
is_label_edge c =
    c == b' '
    || c == b'['
    || c == b']'
    || c == b'<'
    || c == b'>'
    || c == 171
    || c == 187
    || c == b'\t'
    || c == b'\r'
    || c == b'\n'

-- `re.sub(r"^[\-\d\).:]+\s*", "", s)`
abbrev pub is_lead : (ℕ → Bool) → ℕ → Bool
is_lead digit c = c == b'-' || digit c || c == b')' || c == b'.' || c == b':'

abbrev pub without_lead : (ℕ → Bool) → Text → Text
without_lead digit [] = []
without_lead digit (c ∷ s) =
    if is_lead digit c then lstrip is_space (lstrip (is_lead digit) s) else c ∷ s

-- `_clean_label`
unfoldable pub clean_label : Unicode → Text → Text
clean_label u label =
    strip is_space (without_lead u.digit (blanks_to_one false (strip is_label_edge label)))

-- `re.split(r"[\n;,.]", s)`, the parts stripped and the empty ones dropped
abbrev pub split_on : (ℕ → Bool) → Text → List Text
split_on p [] = [] ∷ []
split_on p (c ∷ s) =
    let rest = split_on p s in
    if p c then [] ∷ rest else elim rest [ [] ↦ (c ∷ []) ∷ [] | part ∷ parts ↦ (c ∷ part) ∷ parts ]

abbrev pub stripped_parts : List Text → List Text
stripped_parts [] = []
stripped_parts (s ∷ ss) =
    let rest = stripped_parts ss in
    if text_eq (strip is_space s) [] then rest else strip is_space s ∷ rest

abbrev pub ends_part : ℕ → Bool
ends_part c = c == b'\n' || c == b';' || c == b',' || c == b'.'

-- GENERIC_LABELS
abbrev pub generic_labels : List Text
generic_labels =
    codes "date"
    ∷ codes "name"
    ∷ codes "address"
    ∷ codes "phone"
    ∷ codes "email"
    ∷ codes "signature"
    ∷ []

-- the last part and the one before it
abbrev pub last_two : List Text → Option (Option Text × Text)
last_two [] = none
last_two (s ∷ []) = some (none, s)
last_two (s ∷ t ∷ []) = some (some s, t)
last_two (s ∷ t ∷ u ∷ ss) = last_two (t ∷ u ∷ ss)

-- a generic label takes the part before it along
abbrev pub full_label : Unicode → Option Text → Text → Text
full_label u none label = label
full_label u (some before) label =
    if any (text_eq (u.lower label)) generic_labels
    then clean_label u (before ++ (b' ' ∷ label))
    else label

abbrev pub blank_label_from : Unicode → Option (Option Text × Text) → Option Text
blank_label_from u none = none
blank_label_from u (some (before, last)) =
    if text_eq (clean_label u last) []
    then none
    else or_none (full_label u before (clean_label u last))

abbrev pub trims_prefix : ℕ → Bool
trims_prefix c = c == b':' || c == b'.' || c == b'-' || c == b' '

unfoldable pub label_of_prefix : Unicode → Text → Option Text
unfolding clean_label
label_of_prefix u prefix =
    if text_eq prefix []
    then none
    else blank_label_from u
        (last_two (stripped_parts (split_on ends_part (rstrip trims_prefix prefix))))

-- `_derive_blank_label`; a label that is empty counts as none for the caller
unfoldable pub derive_blank_label : Unicode → Option Text → Text → ℕ → Option Text
unfolding clean_label label_of_prefix
derive_blank_label u (some (c ∷ header)) text start = some (clean_label u (c ∷ header))
derive_blank_label u (some []) text start = label_of_prefix u (strip is_space (take start text))
derive_blank_label u none text start = label_of_prefix u (strip is_space (take start text))
