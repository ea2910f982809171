-- ===== src/Templates/Extraction.antt =====
-- app/services/template_schema_service.py: the schema of a template, read off the placeholders of its DOCX package. The
-- archive and the XML parser are parameters.
pub mod Counts
use Prim.Native.String.{String}
use document_generation_anek.Prelude.{
  ℕ, suc, Bool, true, false, not, ◌&&◌, ◌||◌, Option, none, some, List, [], ◌∷◌, ◌++◌, map, any,
  length, sort_by, select, if◌then◌else◌,
}
use document_generation_anek.Text.{
  Text, codes, text_eq, text_le, is_space, lstrip, concat, replace_char,
}
use document_generation_anek.Json.{Dict, get, put}
use document_generation_anek.Result.{Result, ok, err, validation, ◌>>=◌, ◌>>◌, raise_if, or_raise}
use document_generation_anek.Schema.{
  TemplateVariableSchemaItem, TemplateComponentSchemaItem, TemplateSchemaResponse,
}
use document_generation_anek.Storage.{Bytes}
use document_generation_anek.Import.Patterns.{
  Match, Matcher, find_all, span, after_two, matched, is_letter, is_ascii_digit, is_key_char,
}
use document_generation_anek.Import.Labels.{Unicode, has_prefix}
use document_generation_anek.Import.Bindings.{ends_with}

-- zipfile and xml.etree: the entries of an archive in the order of `namelist`, where it can be opened, and the texts of an
-- XML document, where it parses. An archive names each entry once.
pub record Packages : Type 0 where
  pub entries : Bytes → Option (List (Text × Bytes))
  pub itertext : Bytes → Option (List Text)

-- VARIABLE_PATTERN
abbrev pub variable_key : Text → Text → Option (ℕ × Text)
variable_key s [] = none
variable_key s (c ∷ t) =
    let (key, rest) = span is_key_char t in
    if is_letter c || is_ascii_digit c
    then matched s (c ∷ key) (after_two b'}' b'}' (lstrip is_space rest))
    else none

unfoldable pub variable : Matcher
variable s = elim (after_two b'{' b'{' s) [
  | none ↦ none
  | some t ↦ variable_key s (lstrip is_space t)
]

-- `_label_from_key`
unfoldable pub label_of_key : Unicode → Text → Text
label_of_key u key =
    u.title (replace_char b'-' b' ' (replace_char b'_' b' ' (replace_char b'.' b' ' key)))

abbrev pub starts_with_any : List Text → Text → Bool
starts_with_any prefixes s = any (λ p. has_prefix p s) prefixes

-- `_infer_component_type`
unfoldable pub component_type_of : Unicode → Text → String
component_type_of u key =
    if starts_with_any (codes "image_" ∷ codes "photo_" ∷ codes "logo_" ∷ codes "signature_" ∷ [])
      (u.lower key)
    then "image"
    else if starts_with_any (codes "table_" ∷ codes "rows_" ∷ codes "items_" ∷ codes "list_" ∷ [])
        (u.lower key)
    then "table"
    else "text"

-- `_infer_value_type`, by the same prefixes
unfoldable pub value_type_of : Unicode → Text → String
value_type_of u key =
    if starts_with_any (codes "image_" ∷ codes "photo_" ∷ codes "logo_" ∷ codes "signature_" ∷ [])
      (u.lower key)
    then "image"
    else if starts_with_any (codes "table_" ∷ codes "rows_" ∷ codes "items_" ∷ codes "list_" ∷ [])
        (u.lower key)
    then "array"
    else "string"

-- the accumulator of one variable
pub record VariableEntry : Type 0 where
  pub label : Text
  pub value_type : String
  pub component_type : String
  pub occurrences : ℕ
  pub sources : List Text

-- `sources.add(name)`
abbrev pub add_source : Text → List Text → List Text
add_source name sources = if any (text_eq name) sources then sources else name ∷ sources

unfoldable pub new_entry : Unicode → Text → VariableEntry
new_entry u key = record {
  label = label_of_key u key;
  value_type = value_type_of u key;
  component_type = component_type_of u key;
  occurrences = 0;
  sources = [];
}

abbrev pub entry_or_new : Unicode → Text → Option VariableEntry → VariableEntry
entry_or_new u key none = new_entry u key
entry_or_new u key (some entry) = entry

abbrev pub counted : Text → VariableEntry → VariableEntry
counted source entry = record entry {
  occurrences = suc entry.occurrences;
  sources = add_source source entry.sources;
}

-- one match of the pattern in the part `source`
unfoldable pub add_variable : Unicode → Text → Text → Dict VariableEntry → Dict VariableEntry
add_variable u source key index =
    put key (counted source (entry_or_new u key (get key index))) index

-- the matches of all parts, in order
abbrev pub keys_in : Text × Text → List (Text × Text)
keys_in (name, text) = map (λ m. (name, m.group)) (find_all variable text)

abbrev pub all_keys : List (Text × Text) → List (Text × Text)
all_keys [] = []
all_keys (part ∷ parts) = keys_in part ++ all_keys parts

unfoldable pub variable_index :
    Unicode → List (Text × Text) → Dict VariableEntry → Dict VariableEntry
variable_index u [] index = index
variable_index u ((source, key) ∷ found) index =
    variable_index u found (add_variable u source key index)

unfoldable pub variable_item : Text × VariableEntry → TemplateVariableSchemaItem
variable_item (key, entry) = record {
  key = key;
  label = entry.label;
  placeholder = codes "{{" ++ (key ++ codes "}}");
  value_type = entry.value_type;
  component_type = entry.component_type;
  required = true;
  sample_value = none;
  occurrences = entry.occurrences;
  sources = sort_by text_le entry.sources;
}

unfoldable pub component_item : TemplateVariableSchemaItem → TemplateComponentSchemaItem
component_item v = record {
  id = v.key;
  component = v.component_type;
  binding = v.key;
  label = v.label;
  value_type = v.value_type;
  required = v.required;
}

-- `_extract_text`
abbrev pub text_or_empty : Option (List Text) → Text
text_or_empty none = []
text_or_empty (some texts) = concat texts

abbrev pub is_text_part : Text × Bytes → Bool
is_text_part (name, content) = has_prefix (codes "word/") name && ends_with (codes ".xml") name

abbrev pub text_part : Packages → Text × Bytes → Text × Text
text_part packages (name, content) = (name, text_or_empty (packages.itertext content))

-- `_iter_docx_text_parts`
unfoldable pub iter_docx_text_parts : Packages → Bytes → Result (List (Text × Text))
iter_docx_text_parts packages content = do
  entries ← or_raise (packages.entries content) validation
  let ordered = sort_by (λ a b. text_le a.0 b.0) entries
  ok (map (text_part packages) (select is_text_part ordered))

abbrev pub schema_of : List TemplateVariableSchemaItem → TemplateSchemaResponse
schema_of variables = record {
  variable_count = length variables;
  variables = variables;
  components = map component_item variables;
}

-- TemplateSchemaService.extract_schema, with `_ensure_docx`
unfoldable pub extract_schema :
    (Bytes → Bool) → Packages → Unicode → Text → Bytes → Result TemplateSchemaResponse
unfolding iter_docx_text_parts
extract_schema is_zipfile packages u file_name content = do
  raise_if (not (ends_with (codes ".docx") (u.lower file_name))) validation
  raise_if (not (is_zipfile content)) validation
  parts ← iter_docx_text_parts packages content
  let index = variable_index u (all_keys parts) []
  ok (schema_of (map variable_item (sort_by (λ a b. text_le a.0 b.0) index)))
