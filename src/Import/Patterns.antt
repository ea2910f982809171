-- ===== src/Import/Patterns.antt =====
-- The regular expressions of the import service, as scanners: `pattern.finditer(text)` is `find_all` of a function that
-- matches at the front of a text.
use document_generation_anek.Prelude.{
  ℕ, zero, suc, ◌+◌, ◌-◌, Bool, true, false, not, ◌&&◌, ◌||◌, Option, none, some, List, [], ◌∷◌,
  take, length, leb, ◌==◌, if◌then◌else◌,
}
use document_generation_anek.Text.{Text, is_space, lstrip}

-- a match: where it lies, its text, and the group that is read from it
pub record Match : Type 0 where
  pub start : ℕ
  pub end : ℕ
  pub raw : Text
  pub group : Text

-- the length and the group of a match at the front
abbrev pub Matcher : Type 0
Matcher = Text → Option (ℕ × Text)

-- Matches do not overlap: `skip` characters of the last one are still to be passed.
abbrev pub find_from : Matcher → ℕ → ℕ → Text → List Match
find_from m i skip [] = []
find_from m i (suc k) (c ∷ s) = find_from m (suc i) k s
find_from m i zero (c ∷ s) = elim (m (c ∷ s)) [
  | none ↦ find_from m (suc i) 0 s
  | some (n, group) ↦
      record { start = i; end = i + n; raw = take n (c ∷ s); group = group }
      ∷ find_from m (suc i) (n - 1) s
]

unfoldable pub find_all : Matcher → Text → List Match
find_all m s = find_from m 0 0 s

-- the longest front of characters of a class, and what follows it
abbrev pub span : (ℕ → Bool) → Text → Text × Text
span p [] = ([], [])
span p (c ∷ s) = let (front, rest) = span p s in if p c then (c ∷ front, rest) else ([], c ∷ s)

-- what follows a character that has to stand at the front
abbrev pub after_char : ℕ → Text → Option Text
after_char c [] = none
after_char c (d ∷ s) = if d == c then some s else none

-- and for two characters
abbrev pub after_two : ℕ → ℕ → Text → Option Text
after_two c d s = elim (after_char c s) [ none ↦ none | some rest ↦ after_char d rest ]

abbrev pub is_letter : ℕ → Bool
is_letter c = leb b'A' c && leb c b'Z' || leb b'a' c && leb c b'z'

abbrev pub is_ascii_digit : ℕ → Bool
is_ascii_digit c = leb b'0' c && leb c b'9'

abbrev pub is_key_char : ℕ → Bool
is_key_char c = is_letter c || is_ascii_digit c || c == b'_' || c == b'.' || c == b'-'

-- a match of the front of `s` that ends where `rest` begins
abbrev pub matched : Text → Text → Option Text → Option (ℕ × Text)
matched s group none = none
matched s group (some rest) = some (length s - length rest, group)

-- PLACEHOLDER_PATTERN, behind the opening braces and blanks: the classes of neighbouring parts are disjoint, so the
-- longest fronts are the only ones that can match
abbrev pub placeholder_key : Text → Text → Option (ℕ × Text)
placeholder_key s [] = none
placeholder_key s (c ∷ t) =
    let (key, rest) = span is_key_char t in
    if is_letter c && leb (length key) 119
    then matched s (c ∷ key) (after_two b'}' b'}' (lstrip is_space rest))
    else none

unfoldable pub placeholder : Matcher
placeholder s = elim (after_two b'{' b'{' s) [
  | none ↦ none
  | some t ↦ placeholder_key s (lstrip is_space t)
]

-- a label of 2 to 120 characters of a class, and then the closing text
abbrev pub label_in : Text → (ℕ → Bool) → (Text → Option Text) → Option Text → Option (ℕ × Text)
label_in s p close none = none
label_in s p close (some t) =
    let (label, rest) = span p t in
    if leb 2 (length label) && leb (length label) 120 then matched s label (close rest) else none

abbrev pub first_match : Option (ℕ × Text) → Option (ℕ × Text) → Option (ℕ × Text)
first_match none o = o
first_match (some m) o = some m

-- the alternatives of BRACKET_PATTERN; 171 and 187 are the angle quotes
unfoldable pub square : Matcher
square s =
    label_in s (λ c. not (c == b'[' || c == b']' || c == b'\n')) (after_char b']')
      (after_char b'[' s)

unfoldable pub angle : Matcher
angle s =
    label_in s (λ c. not (c == b'<' || c == b'>' || c == b'\n')) (after_two b'>' b'>')
      (after_two b'<' b'<' s)

unfoldable pub quoted : Matcher
quoted s =
    label_in s (λ c. not (c == 171 || c == 187 || c == b'\n')) (after_char 187) (after_char 171 s)

unfoldable pub bracket : Matcher
unfolding square angle quoted
bracket s = first_match (square s) (first_match (angle s) (quoted s))

-- a run of at least four times the same character
abbrev pub run_of : ℕ → Text → Option (ℕ × Text)
run_of c s =
    let (front, rest) = span (λ d. d == c) s in
    if leb 4 (length front) then matched s front (some rest) else none

-- BLANK_PATTERN
unfoldable pub blank : Matcher
blank s = first_match (run_of b'_' s) (run_of b'.' s)

-- CITATION_LIKE_PATTERN, for a whole label; `\d` is a parameter, since it goes by the tables of Unicode
pub data CitationState : Type 0 where
  at_start in_number after_number after_comma : CitationState

abbrev pub cites : (ℕ → Bool) → CitationState → Text → Bool
cites digit in_number [] = true
cites digit at_start [] = false
cites digit after_number [] = false
cites digit after_comma [] = false
cites digit at_start (c ∷ s) = let rest = cites digit in_number s in if digit c then rest else false
cites digit in_number (c ∷ s) =
    let number = cites digit in_number s in
    let comma = cites digit after_comma s in
    let blanks = cites digit after_number s in
    if digit c then number else if c == b',' then comma else if is_space c then blanks else false
cites digit after_number (c ∷ s) =
    let comma = cites digit after_comma s in
    let blanks = cites digit after_number s in
    if c == b',' then comma else if is_space c then blanks else false
cites digit after_comma (c ∷ s) =
    let number = cites digit in_number s in
    let blanks = cites digit after_comma s in
    if digit c then number else if is_space c then blanks else false

unfoldable pub is_citation : (ℕ → Bool) → Text → Bool
is_citation digit label = cites digit at_start label
