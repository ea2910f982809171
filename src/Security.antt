-- ===== src/Security.antt =====
-- `validate_template_storage_key` of app/services/security_service.py: the check of a storage key that a client names
-- when it registers a template version.
pub mod Ownership
pub mod Uploads
mod Tests
use document_generation_anek.Prelude.{Bool, true, false, not, ◌&&◌, ◌||◌, List, [], ◌∷◌, any}
use document_generation_anek.Result.{Result, ok, err, validation, ◌>>=◌, ◌>>◌, raise_if}
use document_generation_anek.Text.{Text, text_eq, is_space, strip, replace_char}
use document_generation_anek.StorageKeys.{is_slash, is_dots, path_parts}

-- `parts[:2] == (templates_prefix, organization_code)`
abbrev pub has_prefix : Text → Text → List Text → Bool
has_prefix templates_prefix organization_code [] = false
has_prefix templates_prefix organization_code (p ∷ []) = false
has_prefix templates_prefix organization_code (p ∷ o ∷ parts) =
    text_eq p templates_prefix && text_eq o organization_code

unfoldable pub validate_template_storage_key : Text → Text → Text → Result Text
validate_template_storage_key templates_prefix storage_key organization_code = do
  let normalized = strip is_slash (replace_char b'\\' b'/' (strip is_space storage_key))
  raise_if (text_eq normalized []) validation
  raise_if (any is_dots (path_parts normalized)) validation
  raise_if (not (has_prefix templates_prefix organization_code (path_parts normalized))) validation
  ok normalized
