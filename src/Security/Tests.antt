-- ===== src/Security/Tests.antt =====
-- Examples of the check of template keys.
use document_generation_anek.Prelude.{◌≡◌, refl, [], ◌∷◌}
use document_generation_anek.Result.{ok, err, validation}
use document_generation_anek.Text.{Text}
use document_generation_anek.Security.{validate_template_storage_key}
use document_generation_anek.Security.Ownership.{IsOwned, validate_template_storage_key-IsOwned}

abbrev prefix : Text
prefix = b't' ∷ []

abbrev code : Text
code = b'a' ∷ b'b' ∷ []

-- ` /t/ab\v`
abbrev given : Text
given = b' ' ∷ b'/' ∷ b't' ∷ b'/' ∷ b'a' ∷ b'b' ∷ b'\\' ∷ b'v' ∷ []

abbrev key : Text
key = b't' ∷ b'/' ∷ b'a' ∷ b'b' ∷ b'/' ∷ b'v' ∷ []

accepted : validate_template_storage_key prefix given code ≡ ok key
unfolding validate_template_storage_key
accepted = refl

-- `t/ab/../x`
step_up_refused :
    validate_template_storage_key prefix
      (b't' ∷ b'/' ∷ b'a' ∷ b'b' ∷ b'/' ∷ b'.' ∷ b'.' ∷ b'/' ∷ b'x' ∷ [])
      code
    ≡ err validation
unfolding validate_template_storage_key
step_up_refused = refl

foreign_refused : validate_template_storage_key prefix given (b'a' ∷ []) ≡ err validation
unfolding validate_template_storage_key
foreign_refused = refl

validate_template_storage_key-IsOwned_example : IsOwned prefix code key
validate_template_storage_key-IsOwned_example =
    validate_template_storage_key-IsOwned prefix given code key accepted
