-- ===== src/Documents/Images.antt =====
-- `validate_image_data_url` of app/services/security_service.py, with the Base64 decoding of the standard library as far as
-- the number of bytes.
use document_generation_anek.Prelude.{
  ℕ, suc, ◌+◌, ◌*◌, ◌/◌, ◌%◌, Bool, not, ◌&&◌, ◌||◌, Option, none, some, [], ◌∷◌, all, select,
  length, drop, leb, ltb, ◌==◌, if◌then◌else◌,
}
use document_generation_anek.Text.{Text, codes, is_space, strip}
use document_generation_anek.Result.{Result, ok, validation, ◌>>=◌, ◌>>◌, raise_if, or_raise}
use document_generation_anek.Import.Patterns.{is_letter, is_ascii_digit}

-- re.IGNORECASE on the letters of the prefixes: upper case, the dotted and the dotless i, and the long s
abbrev pub lower_ascii : ℕ → ℕ
lower_ascii c =
    if leb b'A' c && leb c b'Z'
    then c + 32
    else if c == 304 || c == 305
    then b'i'
    else if c == 383
    then b's'
    else c

-- what follows a prefix, in any case
abbrev pub after_prefix : Text → Text → Option Text
after_prefix [] s = some s
after_prefix (c ∷ t) [] = none
after_prefix (c ∷ t) (d ∷ s) =
    let rest = after_prefix t s in if c == lower_ascii d then rest else none

abbrev pub first_of : Option Text → Option Text → Option Text
first_of none o = o
first_of (some s) o = some s

abbrev pub is_base64_char : ℕ → Bool
is_base64_char c = is_letter c || is_ascii_digit c || c == b'+' || c == b'/'

abbrev pub is_data_char : ℕ → Bool
is_data_char c = is_base64_char c || c == b'=' || is_space c

-- the group `data` of DATA_URL_PATTERN: no two of the kinds can match at once
abbrev pub url_data : Text → Option Text
url_data s = first_of (after_prefix (codes "data:image/png;base64,") s) (
    first_of (after_prefix (codes "data:image/jpeg;base64,") s) (
      first_of (after_prefix (codes "data:image/jpg;base64,") s)
        (after_prefix (codes "data:image/webp;base64,") s)))

abbrev pub matched_data : Option Text → Option Text
matched_data none = none
matched_data (some s) = if leb 1 (length s) && all is_data_char s then some s else none

-- the characters of the alphabet in front, and what follows them
abbrev pub encoded_length : Text → ℕ
encoded_length [] = 0
encoded_length (c ∷ s) = let n = encoded_length s in if is_base64_char c then suc n else 0

-- the bytes of the last group of `n` characters with `p` signs of padding
abbrev pub group_bytes : ℕ → ℕ → Option ℕ
group_bytes n p =
    if n == 0 && p == 0
    then some 0
    else if n == 2 && p == 2
    then some 1
    else if n == 3 && p == 1
    then some 2
    else none

abbrev pub add_to : ℕ → Option ℕ → Option ℕ
add_to n none = none
add_to n (some m) = some (n + m)

-- `len(b64decode(s, validate=True))`, none for a `BinasciiError`
unfoldable pub decoded_length : Text → Option ℕ
decoded_length s =
    let n = encoded_length s in
    let padding = drop n s in
    if all (λ c. c == b'=') padding
    then add_to (n / 4 * 3) (group_bytes (n % 4) (length padding))
    else none

-- SecurityService.validate_image_data_url
unfoldable pub validate_image_data_url : ℕ → Text → Result Text
unfolding decoded_length
validate_image_data_url max_image_size_bytes image_source = do
  let normalized = strip is_space image_source
  encoded ← or_raise (matched_data (url_data normalized)) validation
  size ← or_raise (decoded_length (select (λ c. not (is_space c)) encoded)) validation
  raise_if (ltb max_image_size_bytes size) validation
  ok normalized
