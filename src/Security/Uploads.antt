-- ===== src/Security/Uploads.antt =====
-- `sanitize_file_name` and `validate_template_upload` of app/services/security_service.py.
use Prim.Native.String.{String}
use package.text.Mathlib.Text.{◌==◌ as str_eq}
use document_generation_anek.Prelude.{
  ℕ, suc, ◌+◌, Bool, true, false, not, ◌&&◌, ◌||◌, Option, none, some, [], ◌∷◌, ◌++◌, take, drop,
  length, leb, ltb, ◌==◌, if◌then◌else◌,
}
use document_generation_anek.Text.{Text, codes, text_eq, is_space, strip}
use document_generation_anek.Result.{Result, ok, validation, ◌>>=◌, ◌>>◌, raise_if}
use document_generation_anek.Storage.{Bytes}
use document_generation_anek.StorageKeys.{path_parts, last}
use document_generation_anek.Import.Patterns.{is_letter, is_ascii_digit}
use document_generation_anek.Import.Bindings.{ends_with}

-- `name.rfind(".")`
abbrev pub last_dot : ℕ → Option ℕ → Text → Option ℕ
last_dot i found [] = found
last_dot i found (c ∷ s) = last_dot (suc i) (if c == b'.' then some i else found) s

-- where `Path(name).suffix` begins: at the last dot, when it is neither the first nor the last character
abbrev pub suffix_start : Text → Option ℕ → ℕ
suffix_start s none = length s
suffix_start s (some i) = if leb 1 i && ltb (i + 1) (length s) then i else length s

abbrev pub stem_of : Text → Text
stem_of s = take (suffix_start s (last_dot 0 none s)) s

abbrev pub suffix_of : Text → Text
suffix_of s = drop (suffix_start s (last_dot 0 none s)) s

abbrev pub is_file_char : ℕ → Bool
is_file_char c = is_letter c || is_ascii_digit c || c == b'.' || c == b'_' || c == b'-'

-- `SAFE_FILE_NAME_PATTERN.sub("-", s)`; the flag tells that a run of other characters was just replaced
abbrev pub safe_joined : Bool → Text → Text
safe_joined b [] = []
safe_joined b (c ∷ s) =
    let again = safe_joined true s in
    let rest = safe_joined false s in
    if is_file_char c then c ∷ rest else (if b then again else b'-' ∷ again)

abbrev pub is_file_edge : ℕ → Bool
is_file_edge c = c == b'-' || c == b'.'

abbrev pub stem_or : Text → Text → Text
stem_or default_stem [] = default_stem
stem_or default_stem (c ∷ s) = c ∷ s

-- SecurityService.sanitize_file_name; `Path(s).name` is the last part of the path
unfoldable pub sanitize_file_name : (Text → Text) → Text → Text → Result Text
sanitize_file_name lower default_stem file_name = do
  let base_name = strip is_space (last (path_parts file_name))
  raise_if (text_eq base_name []) validation
  let name = last (path_parts base_name)
  ok (
      stem_or default_stem (strip is_file_edge (safe_joined false (stem_of name)))
      ++ lower (suffix_of name))

-- ALLOWED_TEMPLATE_CONTENT_TYPES; no content type, and an empty one, are let pass
abbrev pub is_allowed_type : Option String → Bool
is_allowed_type none = true
is_allowed_type (some t) =
    str_eq t ""
    || str_eq t "application/vnd.openxmlformats-officedocument.wordprocessingml.document"
    || str_eq t "application/octet-stream"
    || str_eq t "application/zip"

-- an upload: `file.filename or "template.docx"`, its content type and its bytes
pub record Upload : Type 0 where
  pub file_name : Text
  pub content_type : Option String
  pub content : Bytes

-- SecurityService.validate_template_upload
unfoldable pub validate_template_upload :
    (Bytes → Bool) → (Text → Text) → ℕ → Text → Option String → Bytes → Result Text
unfolding sanitize_file_name
validate_template_upload is_zipfile lower max_upload_size_bytes file_name content_type content = do
  safe_file_name ← sanitize_file_name lower (codes "template") file_name
  raise_if (not (ends_with (codes ".docx") (lower safe_file_name))) validation
  raise_if (length content == 0) validation
  raise_if (ltb max_upload_size_bytes (length content)) validation
  raise_if (not (is_allowed_type content_type)) validation
  raise_if (not (is_zipfile content)) validation
  ok safe_file_name
