-- ===== src/StorageKeys.antt =====
-- app/services/storage/key_builder.py: object keys from tenant, template and job names. A prefix from the settings is
-- taken to be relative, as the default prefixes are.
pub mod Separation
mod Tests
use document_generation_anek.Prelude.{
  ℕ, Bool, true, false, not, ◌&&◌, ◌||◌, List, [], ◌∷◌, ◌++◌, any, select, ◌==◌, if◌then◌else◌,
}
use document_generation_anek.Result.{Result, ok, err, unsafe_key, ◌>>=◌, ◌>>◌, raise_if}
use document_generation_anek.Text.{Text, text_eq, is_space, strip, replace_char}
use document_generation_anek.Text.Split.{split, join}

abbrev pub is_slash : ℕ → Bool
is_slash c = c == b'/'

-- empty, `.` or `..`
abbrev pub is_dots : Text → Bool
is_dots s = text_eq s [] || text_eq s (b'.' ∷ []) || text_eq s (b'.' ∷ b'.' ∷ [])

-- StorageKeyBuilder._clean_segment
unfoldable pub clean_segment : Text → Result Text
clean_segment value = do
  let cleaned = strip is_slash (replace_char b'\\' b'/' (strip is_space value))
  raise_if (is_dots cleaned || any is_slash cleaned) unsafe_key
  ok cleaned

-- `parts[-1]`
abbrev pub last : List Text → Text
last [] = []
last (part ∷ []) = part
last (part ∷ next ∷ parts) = last (next ∷ parts)

-- StorageKeyBuilder._clean_file_name
unfoldable pub clean_file_name : Text → Result Text
clean_file_name value = do
  let cleaned = last (split b'/' (replace_char b'\\' b'/' (strip is_space value)))
  raise_if (is_dots cleaned) unsafe_key
  ok cleaned

-- the parts of a relative PurePosixPath: empty and `.` parts are dropped
abbrev pub is_part : Text → Bool
is_part s = not (text_eq s [] || text_eq s (b'.' ∷ []))

abbrev pub path_parts : Text → List Text
path_parts s = select is_part (split b'/' s)

abbrev pub all_parts : List Text → List Text
all_parts [] = []
all_parts (s ∷ ss) = path_parts s ++ all_parts ss

-- `str(PurePosixPath(*segments))`
unfoldable pub posix_path : List Text → Text
posix_path segments = join b'/' (all_parts segments)

unfoldable pub template_key : Text → Text → Text → Text → Text → Result Text
unfolding clean_segment clean_file_name posix_path
template_key templates_prefix organization_code template_code version file_name = do
  o ← clean_segment organization_code
  t ← clean_segment template_code
  v ← clean_segment version
  f ← clean_file_name file_name
  ok (posix_path (templates_prefix ∷ o ∷ t ∷ v ∷ f ∷ []))

-- `artifact_key`, `preview_key` and `cache_key` differ in the prefix alone
unfoldable pub three_part_key : Text → Text → Text → Text → Result Text
unfolding clean_segment clean_file_name posix_path
three_part_key prefix organization_code name file_name = do
  o ← clean_segment organization_code
  n ← clean_segment name
  f ← clean_file_name file_name
  ok (posix_path (prefix ∷ o ∷ n ∷ f ∷ []))

unfoldable pub artifact_key : Text → Text → Text → Text → Result Text
unfolding three_part_key
artifact_key artifacts_prefix organization_code job_id artifact_name =
    three_part_key artifacts_prefix organization_code job_id artifact_name

unfoldable pub preview_key : Text → Text → Text → Text → Result Text
unfolding three_part_key
preview_key previews_prefix organization_code job_id preview_name =
    three_part_key previews_prefix organization_code job_id preview_name

unfoldable pub cache_key : Text → Text → Text → Text → Result Text
unfolding three_part_key
cache_key cache_prefix organization_code key artifact_name =
    three_part_key cache_prefix organization_code key artifact_name
