-- ===== src/Import/Keys.antt =====
-- `_binding_key_from_label`, and the kinds that are read off a key and its label.
pub mod Safe
use Prim.Native.String.{String}
use document_generation_anek.Prelude.{
  ℕ, Bool, true, false, not, ◌&&◌, ◌||◌, List, [], ◌∷◌, ◌++◌, take, drop, length, leb, ◌==◌,
  if◌then◌else◌,
}
use document_generation_anek.Text.{
  Text, codes, text_eq, strip, lstrip, rstrip, is_space, replace_char,
}
use document_generation_anek.Import.Patterns.{is_letter, is_ascii_digit}
use document_generation_anek.Import.Labels.{Unicode, contains, contains_any, has_prefix}

-- CYRILLIC_TRANSLIT_MAP, by code points
abbrev pub translit_map : List (ℕ × Text)
translit_map =
    (1072, codes "a")
    ∷ (1241, codes "a")
    ∷ (1073, codes "b")
    ∷ (1074, codes "v")
    ∷ (1075, codes "g")
    ∷ (1171, codes "g")
    ∷ (1076, codes "d")
    ∷ (1077, codes "e")
    ∷ (1105, codes "e")
    ∷ (1078, codes "zh")
    ∷ (1079, codes "z")
    ∷ (1080, codes "i")
    ∷ (1081, codes "i")
    ∷ (1082, codes "k")
    ∷ (1179, codes "q")
    ∷ (1083, codes "l")
    ∷ (1084, codes "m")
    ∷ (1085, codes "n")
    ∷ (1187, codes "ng")
    ∷ (1086, codes "o")
    ∷ (1257, codes "o")
    ∷ (1087, codes "p")
    ∷ (1088, codes "r")
    ∷ (1089, codes "s")
    ∷ (1090, codes "t")
    ∷ (1091, codes "u")
    ∷ (1201, codes "u")
    ∷ (1199, codes "u")
    ∷ (1092, codes "f")
    ∷ (1093, codes "h")
    ∷ (1211, codes "h")
    ∷ (1094, codes "ts")
    ∷ (1095, codes "ch")
    ∷ (1096, codes "sh")
    ∷ (1097, codes "shch")
    ∷ (1099, codes "y")
    ∷ (1110, codes "i")
    ∷ (1101, codes "e")
    ∷ (1102, codes "yu")
    ∷ (1103, codes "ya")
    ∷ (1100, codes "")
    ∷ (1098, codes "")
    ∷ []

abbrev pub translit_in : List (ℕ × Text) → ℕ → Text
translit_in [] c = c ∷ []
translit_in ((d, t) ∷ table) c = if d == c then t else translit_in table c

abbrev pub transliterate : Text → Text
transliterate [] = []
transliterate (c ∷ s) = translit_in translit_map c ++ transliterate s

abbrev pub is_word : ℕ → Bool
is_word c = is_letter c || is_ascii_digit c

abbrev pub is_underscore : ℕ → Bool
is_underscore c = c == b'_'

-- `re.sub(r"[^A-Za-z0-9]+", "_", s)`; the flag tells that a run of other characters was just replaced
abbrev pub words_joined : Bool → Text → Text
words_joined b [] = []
words_joined b (c ∷ s) =
    let again = words_joined true s in
    let rest = words_joined false s in
    if is_word c then c ∷ rest else (if b then again else b'_' ∷ again)

abbrev pub named : Unicode → Text → Text → Text
named u label [] = codes "field_" ++ take 8 (u.sha1 label)
named u label (c ∷ s) = c ∷ s

abbrev pub not_digit_first : Text → Text
not_digit_first [] = []
not_digit_first (c ∷ s) = if is_ascii_digit c then codes "field_" ++ (c ∷ s) else c ∷ s

-- DocxTemplateImportService._binding_key_from_label
unfoldable pub binding_key_from_label : Unicode → Text → Text
binding_key_from_label u label = take 120 (
    not_digit_first
      (named u label (strip is_underscore (words_joined false (transliterate (u.lower label))))))

-- `_label_from_key`
unfoldable pub label_from_key : Unicode → Text → Text
label_from_key u key =
    u.title (replace_char b'-' b' ' (replace_char b'_' b' ' (replace_char b'.' b' ' key)))

abbrev pub image_tokens : List Text
image_tokens = codes "image" ∷ codes "photo" ∷ codes "logo" ∷ codes "signature" ∷ []

abbrev pub table_tokens : List Text
table_tokens = codes "table" ∷ codes "rows" ∷ codes "items" ∷ codes "list" ∷ []

abbrev pub number_tokens : List Text
number_tokens = codes "amount" ∷ codes "price" ∷ codes "sum" ∷ codes "total" ∷ []

-- f"{binding_key} {label}".lower()
abbrev pub lowered : Unicode → Text → Text → Text
lowered u key label = u.lower (key ++ (b' ' ∷ label))

unfoldable pub infer_component_type : Unicode → Text → Text → String
infer_component_type u key label =
    if contains_any image_tokens (lowered u key label)
    then "image"
    else if contains_any table_tokens (lowered u key label)
    then "table"
    else "text"

unfoldable pub infer_value_type : Unicode → Text → Text → String
infer_value_type u key label =
    if contains_any image_tokens (lowered u key label)
    then "image"
    else if contains_any table_tokens (lowered u key label)
    then "array"
    else if contains (codes "date") (lowered u key label)
    then "date"
    else if contains_any number_tokens (lowered u key label)
    then "number"
    else "string"

-- a character at the end of a text
abbrev pub last_in : (ℕ → Bool) → Text → Bool
last_in p [] = false
last_in p (c ∷ []) = p c
last_in p (c ∷ d ∷ s) = last_in p (d ∷ s)

abbrev pub opens_field : ℕ → Bool
opens_field c = c == b':' || c == b'-' || c == b'=' || c == b'(' || c == b'\n'

-- `_has_bracket_field_context`
unfoldable pub has_bracket_field_context : Bool → Text → ℕ → ℕ → Bool
has_bracket_field_context in_header_or_footer text start end =
    let prefix = rstrip is_space (take start text) in
    let suffix = lstrip is_space (drop end text) in
    text_eq prefix [] && text_eq suffix []
    || last_in opens_field prefix
    || in_header_or_footer && leb (length prefix) 2
