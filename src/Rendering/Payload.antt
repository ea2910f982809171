-- ===== src/Rendering/Payload.antt =====
-- `prepare_payload` of app/services/generation/docx_template_render_service.py: the values of the confirmed bindings, and
-- the cache key. The digest (SHA-256 of the JSON text with sorted keys) is a parameter. A binding's `required` is true where
-- the stored binding does not say.
use Prim.Native.String.{String}
use document_generation_anek.Prelude.{Bool, true, false, Option, none, some, List, [], ◌∷◌, sort_by}
use document_generation_anek.Text.{Text, codes, text_le}
use document_generation_anek.Schema.{ImportBinding}
use document_generation_anek.Json.{Value, null, str, num, bool, obj, arr, Dict, get, put}
use document_generation_anek.Result.{Result, ok, err, validation, ◌>>=◌, ◌>>◌, raise_if}

-- `str(value)` of a scalar
abbrev pub bool_text : Bool → Text
bool_text true = codes "True"
bool_text false = codes "False"

abbrev pub missing_value : Bool → Result (Option Text)
missing_value true = err validation
missing_value false = ok none

-- what the loop stores for one binding
unfoldable pub binding_value : Bool → Option Value → Result (Option Text)
binding_value required none = missing_value required
binding_value required (some null) = missing_value required
binding_value required (some (obj members)) = err validation
binding_value required (some (arr items)) = err validation
binding_value required (some (str s)) = ok (some s)
binding_value required (some (num s)) = ok (some s)
binding_value required (some (bool b)) = ok (some (bool_text b))

unfoldable pub normalize_bindings :
    List ImportBinding → Dict Value → Dict (Option Text) → Result (Dict (Option Text))
unfolding binding_value
normalize_bindings [] values normalized = ok normalized
normalize_bindings (b ∷ bindings) values normalized =
    binding_value b.required (get b.binding_key values) >>= λ v.
    normalize_bindings bindings values (put b.binding_key v normalized)

abbrev pub no_bindings : List ImportBinding → Bool
no_bindings [] = true
no_bindings (b ∷ bindings) = false

abbrev pub by_key : (Text × Option Text) → (Text × Option Text) → Bool
by_key a b = text_le a.0 b.0

unfoldable pub prepare_payload :
    (String → String → Dict (Option Text) → String)
    → String
    → String
    → List ImportBinding
    → Dict Value
    → Result (Dict (Option Text) × String)
unfolding normalize_bindings
prepare_payload digest render_strategy template_version_id bindings values = do
  raise_if (no_bindings bindings) validation
  normalized ← normalize_bindings bindings values []
  ok (normalized, digest render_strategy template_version_id (sort_by by_key normalized))
