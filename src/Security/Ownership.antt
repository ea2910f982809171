-- ===== src/Security/Ownership.antt =====
-- A template key that is accepted lies in the area of the organization.
use document_generation_anek.Prelude.{
  ◌≡◌, refl, sym, ◌∙◌, Bool, true, false, not, both-true, List, [], ◌∷◌, any, arith,
}
use document_generation_anek.Result.{ok, validation, raise_if, raise_if-eq-ok, >>=-eq-ok}
use document_generation_anek.Text.{Text, text_eq, text_eq→eq, is_space, strip, replace_char}
use document_generation_anek.StorageKeys.{is_slash, is_dots, path_parts}
use document_generation_anek.Security.{has_prefix, validate_template_storage_key}

-- in the templates of one organization, and without a step up
abbrev pub IsOwned : Text → Text → Text → Type 0
IsOwned templates_prefix organization_code key =
    (rest : List Text) × (path_parts key ≡ templates_prefix ∷ organization_code ∷ rest)
    × (any is_dots rest ≡ false)

any_rest : (f : Text → Bool) (x : Text) (xs : List Text) → any f (x ∷ xs) ≡ false → any f xs ≡ false
any_rest f x xs h = ground arith

has_prefix-split :
    (p o : Text) (parts : List Text)
    → has_prefix p o parts ≡ true
    → any is_dots parts ≡ false
    → (rest : List Text) × (parts ≡ p ∷ o ∷ rest) × (any is_dots rest ≡ false)
has_prefix-split p o [] h safe = absurd (cc)
has_prefix-split p o (a ∷ []) h safe = absurd (cc)
has_prefix-split p o (a ∷ b ∷ rest) h safe =
    let (x, y) = both-true (text_eq a p) (text_eq b o) h in
    let u : a ≡ p = text_eq→eq a p x in
    let v : b ≡ o = text_eq→eq b o y in
    (rest, cc, any_rest is_dots b rest (any_rest is_dots a (b ∷ rest) safe))

-- A storage key that is accepted for an organization names an object in that organization's template area: its first
-- two parts are the templates prefix and the organization's code, and no later part is `.` or `..`.
pub validate_template_storage_key-IsOwned :
    (templates_prefix storage_key organization_code key : Text)
    → validate_template_storage_key templates_prefix storage_key organization_code ≡ ok key
    → IsOwned templates_prefix organization_code key
unfolding validate_template_storage_key
validate_template_storage_key-IsOwned templates_prefix storage_key organization_code key h =
    let n = strip is_slash (replace_char b'\\' b'/' (strip is_space storage_key)) in
    let (_, _, h1) = >>=-eq-ok (raise_if (text_eq n []) validation) _ h in
    let (_, dots, h2) = >>=-eq-ok (raise_if (any is_dots (path_parts n)) validation) _ h1 in
    let owned = has_prefix templates_prefix organization_code (path_parts n) in
    let (_, area, same) = >>=-eq-ok (raise_if (not owned) validation) _ h2 in
    let q : n ≡ key = cc in
    let yes : owned ≡ true = not_false owned (raise_if-eq-ok (not owned) validation area) in
    let safe = raise_if-eq-ok (any is_dots (path_parts n)) validation dots in
    rw (← q) (has_prefix-split templates_prefix organization_code (path_parts n) yes safe)
  where
    not_false : (b : Bool) → not b ≡ false → b ≡ true
    not_false true k = refl
    not_false false k = cc

-- No storage key is accepted for two organizations: where one is accepted for two codes, the codes are equal.
pub validate_template_storage_key-isolates :
    (templates_prefix storage_key code code' key key' : Text)
    → validate_template_storage_key templates_prefix storage_key code ≡ ok key
    → validate_template_storage_key templates_prefix storage_key code' ≡ ok key'
    → code ≡ code'
unfolding validate_template_storage_key
validate_template_storage_key-isolates templates_prefix storage_key code code' key key' h h' =
    let same : key ≡ key' = normalized_same in
    let (rest, e, _) =
      validate_template_storage_key-IsOwned templates_prefix storage_key code key h in
    let (rest', e', _) =
      validate_template_storage_key-IsOwned templates_prefix storage_key code' key' h' in
    cc
  where
    normal :
        (c k : Text)
        → validate_template_storage_key templates_prefix storage_key c ≡ ok k
        → strip is_slash (replace_char b'\\' b'/' (strip is_space storage_key)) ≡ k
    normal c k e =
        let n = strip is_slash (replace_char b'\\' b'/' (strip is_space storage_key)) in
        let (_, _, h1) = >>=-eq-ok (raise_if (text_eq n []) validation) _ e in
        let (_, _, h2) = >>=-eq-ok (raise_if (any is_dots (path_parts n)) validation) _ h1 in
        let (_, _, same) =
          >>=-eq-ok (raise_if (not (has_prefix templates_prefix c (path_parts n))) validation) _
            h2 in
        cc

    normalized_same : key ≡ key'
    normalized_same = sym (normal code key h) ∙ normal code' key' h'
