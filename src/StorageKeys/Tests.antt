-- ===== src/StorageKeys/Tests.antt =====
-- Examples of the storage keys.
use document_generation_anek.Prelude.{◌≡◌, refl, [], ◌∷◌}
use document_generation_anek.Result.{ok}
use document_generation_anek.Text.{Text}
use document_generation_anek.StorageKeys.{
  clean_segment, clean_file_name, posix_path, three_part_key,
}
use document_generation_anek.StorageKeys.Separation.{three_part_key-injective}

-- `artifacts`, ` ab`, `j/`, `x\f`
abbrev prefix : Text
prefix = b'a' ∷ b'r' ∷ b't' ∷ []

abbrev code : Text
code = b' ' ∷ b'a' ∷ b'b' ∷ []

abbrev job : Text
job = b'j' ∷ b'/' ∷ []

abbrev file : Text
file = b'x' ∷ b'\\' ∷ b'f' ∷ []

abbrev key : Text
key = b'a' ∷ b'r' ∷ b't' ∷ b'/' ∷ b'a' ∷ b'b' ∷ b'/' ∷ b'j' ∷ b'/' ∷ b'f' ∷ []

made : three_part_key prefix code job file ≡ ok key
unfolding three_part_key clean_segment clean_file_name posix_path
made = refl

three_part_key-injective_example :
    (clean_segment code ≡ clean_segment code)
    × (clean_segment job ≡ clean_segment job)
    × (clean_file_name file ≡ clean_file_name file)
three_part_key-injective_example =
    three_part_key-injective prefix code job file code job file key made made
