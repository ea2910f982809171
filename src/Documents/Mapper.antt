-- ===== src/Documents/Mapper.antt =====
-- app/services/generation/variable_mapper_service.py: a constructor's bindings, resolved against the data of a request. The
-- digest that makes the cache key (SHA-256 of the JSON text with sorted keys) is a parameter.
use Prim.Native.String.{String}
use document_generation_anek.Prelude.{
  ℕ, Bool, true, false, not, ◌&&◌, Option, none, some, List, [], ◌∷◌, sort_by, if◌then◌else◌,
}
use document_generation_anek.Text.{Text, codes, text_le}
use document_generation_anek.Text.Decimal.{str_int}
use document_generation_anek.Json.{
  Value, null, str, num, bool, arr, Items, no_items, item, Dict, get, is_null, of_option,
}
use document_generation_anek.Result.{Result, ok, err, validation, ◌>>=◌, ◌>>◌, raise_if}
use document_generation_anek.Constructor.{
  ConstructorBindingReference, DocumentBlock, text, header, table, image, signature, page_break,
  spacer, DocumentConstructor,
}
use document_generation_anek.Documents.Images.{validate_image_data_url}

-- generation/models.py; the content by its names
pub record ResolvedBlock : Type 0 where
  pub id : Text
  pub type : String
  pub content : Dict Value

pub record ResolvedDocument : Type 0 where
  pub constructor : DocumentConstructor
  pub formatting : Value
  pub blocks : List ResolvedBlock
  pub payload : Dict Value

-- `payload.get(key, fallback)`
abbrev pub get_or : Option Value → Option Text → Value
get_or none fallback = of_option fallback
get_or (some v) fallback = v

abbrev pub present : Bool → Value → Result Value
present required v = if is_null v && required then err validation else ok v

-- `_resolve_binding`
unfoldable pub resolve_binding : Option ConstructorBindingReference → Dict Value → Result Value
resolve_binding none payload = err validation
resolve_binding (some b) payload = present b.required (get_or (get b.key payload) b.fallback)

-- `_resolve_optional_binding`
unfoldable pub resolve_optional_binding : Option ConstructorBindingReference → Dict Value → Value
resolve_optional_binding none payload = null
resolve_optional_binding (some b) payload = get_or (get b.key payload) b.fallback

-- `block.text or self._resolve_binding(block.binding, payload)`
abbrev pub text_or : Option Text → Option ConstructorBindingReference → Dict Value → Result Value
text_or none binding payload = resolve_binding binding payload
text_or (some []) binding payload = resolve_binding binding payload
text_or (some (c ∷ s)) binding payload = ok (str (c ∷ s))

-- `block.rows or self._resolve_binding(block.rows_binding, payload)`
abbrev pub rows_or : Option Items → Option ConstructorBindingReference → Dict Value → Result Value
rows_or none binding payload = resolve_binding binding payload
rows_or (some no_items) binding payload = resolve_binding binding payload
rows_or (some (item v vs)) binding payload = ok (arr (item v vs))

-- `isinstance(rows, list)` and `isinstance(value, str)`
abbrev pub is_list : Value → Bool
is_list (arr items) = true
is_list _ = false

abbrev pub image_text : Value → Result Text
image_text (str s) = ok s
image_text _ = err validation

-- `_resolve_block`
unfoldable pub resolve_block : ℕ → DocumentBlock → Dict Value → Result ResolvedBlock
unfolding resolve_binding resolve_optional_binding
resolve_block max_size (text id own binding multiline style) payload = do
  t ← text_or own binding payload
  ok (record {
    id = id;
    type = "text";
    content = (codes "text", t) ∷ (codes "style", style) ∷ (codes "multiline", bool multiline) ∷ [];
  })
resolve_block max_size (header id own binding level numbering style) payload = do
  t ← text_or own binding payload
  ok (record {
    id = id;
    type = "header";
    content =
        (codes "text", t)
        ∷ (codes "level", num (str_int level))
        ∷ (codes "numbering", bool numbering)
        ∷ (codes "style", style)
        ∷ [];
  })
resolve_block max_size (table id columns own binding caption header_bold compact) payload = do
  rows ← rows_or own binding payload
  raise_if (not (is_list rows)) validation
  ok (record {
    id = id;
    type = "table";
    content =
        (codes "columns", columns)
        ∷ (codes "rows", rows)
        ∷ (codes "caption", of_option caption)
        ∷ (codes "header_bold", bool header_bold)
        ∷ (codes "compact", bool compact)
        ∷ [];
  })
resolve_block max_size (image id binding width height keep caption alignment) payload = do
  value ← resolve_binding (some binding) payload
  source ← image_text value
  checked ← validate_image_data_url max_size source
  ok (record {
    id = id;
    type = "image";
    content =
        (codes "image", str checked)
        ∷ (codes "width_mm", width)
        ∷ (codes "height_mm", height)
        ∷ (codes "keep_aspect_ratio", bool keep)
        ∷ (codes "caption", of_option caption)
        ∷ (codes "alignment", str alignment)
        ∷ [];
  })
resolve_block max_size (signature id name role date label include_date include_stamp) payload = do
  signer_name ← resolve_binding (some name) payload
  ok (record {
    id = id;
    type = "signature";
    content =
        (codes "signer_name", signer_name)
        ∷ (codes "signer_role", resolve_optional_binding role payload)
        ∷ (codes "date", resolve_optional_binding date payload)
        ∷ (codes "line_label", str label)
        ∷ (codes "include_date", bool include_date)
        ∷ (codes "include_stamp_area", bool include_stamp)
        ∷ [];
  })
resolve_block max_size (page_break id reason) payload =
    ok (record { id = id; type = "page_break"; content = (codes "reason", str reason) ∷ [] })
resolve_block max_size (spacer id height) payload =
    ok (record { id = id; type = "spacer"; content = (codes "height_mm", height) ∷ [] })

unfoldable pub resolve_blocks : ℕ → List DocumentBlock → Dict Value → Result (List ResolvedBlock)
unfolding resolve_block
resolve_blocks max_size [] payload = ok []
resolve_blocks max_size (b ∷ blocks) payload = do
  block ← resolve_block max_size b payload
  rest ← resolve_blocks max_size blocks payload
  ok (block ∷ rest)

-- `_normalize_payload`
unfoldable pub normalize_payload : Dict Value → Dict Value
normalize_payload payload = sort_by (λ a b. text_le a.0 b.0) payload

pub record Mapped : Type 0 where
  pub document : ResolvedDocument
  pub normalized_payload : Dict Value
  pub cache_key : String

-- VariableMapperService.map_document
unfoldable pub map_document :
    (ℕ → DocumentConstructor → Dict Value → String)
    → ℕ
    → ℕ
    → DocumentConstructor
    → Dict Value
    → Result Mapped
unfolding resolve_blocks
map_document digest max_size template_version_id constructor values = do
  let payload = normalize_payload values
  blocks ← resolve_blocks max_size constructor.blocks payload
  ok (record {
    document = record {
      constructor = constructor;
      formatting = constructor.formatting;
      blocks = blocks;
      payload = payload;
    };
    normalized_payload = payload;
    cache_key = digest template_version_id constructor payload;
  })
