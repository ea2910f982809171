-- ===== src/Text.antt =====
-- Python texts as lists of code points, and the string methods that the services call on them.
pub mod Split
pub mod Strip
pub mod Decimal
use Prim.Native.Char.{code}
use Prim.Native.String.{String}
use mathlib.Core.List.{reverse}
use document_generation_anek.Prelude.{
  ℕ, ◌+◌, ◌-◌, ◌≡◌, refl, Bool, true, false, not, ◌&&◌, ◌||◌, List, [], ◌∷◌, ◌++◌, arith, map, take,
  drop, leb, ltb, ◌==◌, ==→eq, ==-self, both-true, if◌then◌else◌,
}

abbrev pub Text : Type 0
Text = List ℕ

-- the code points of a literal of the source
abbrev pub codes : String → Text
codes String.[] = []
codes (String.◌∷◌ c s) = code c ∷ codes s

-- `s == t`
abbrev pub text_eq : Text → Text → Bool
text_eq [] [] = true
text_eq [] (d ∷ t) = false
text_eq (c ∷ s) [] = false
text_eq (c ∷ s) (d ∷ t) = c == d && text_eq s t

pub text_eq→eq : (s t : Text) → text_eq s t ≡ true → s ≡ t
text_eq→eq [] [] h = refl
text_eq→eq [] (d ∷ t) h = absurd (cc)
text_eq→eq (c ∷ s) [] h = absurd (cc)
text_eq→eq (c ∷ s) (d ∷ t) h =
    let (a, b) = both-true (c == d) (text_eq s t) h in
    let p : c ≡ d = ==→eq c d a in let q : s ≡ t = text_eq→eq s t b in cc

pub text_eq_self : (s : Text) → text_eq s s ≡ true
text_eq_self [] = refl
text_eq_self (c ∷ s) = rw (==-self c) (text_eq_self s)

-- `s[a:b]` for indices that are not negative
abbrev pub slice : ℕ → ℕ → Text → Text
slice a b s = drop a (take b s)

-- `"".join(parts)`
abbrev pub concat : List Text → Text
concat [] = []
concat (s ∷ ss) = s ++ concat ss

-- the characters that `str.strip` removes by default
abbrev pub is_space : ℕ → Bool
is_space c =
    leb 9 c && leb c 13
    || leb 28 c && leb c 32
    || c == 133
    || c == 160
    || c == 5760
    || leb 8192 c && leb c 8202
    || c == 8232
    || c == 8233
    || c == 8239
    || c == 8287
    || c == 12288

-- `s.lstrip(...)`, `s.rstrip(...)` and `s.strip(...)`, by a set of characters
abbrev pub lstrip : (ℕ → Bool) → Text → Text
lstrip p [] = []
lstrip p (c ∷ s) = if p c then lstrip p s else c ∷ s

abbrev pub rstrip : (ℕ → Bool) → Text → Text
rstrip p s = reverse (lstrip p (reverse s))

abbrev pub strip : (ℕ → Bool) → Text → Text
strip p s = rstrip p (lstrip p s)

-- `s.replace(a, b)` for single characters
abbrev pub replace_char : ℕ → ℕ → Text → Text
replace_char a b s = map (λ c. if c == a then b else c) s

-- `s <= t`, by code points
abbrev pub text_le : Text → Text → Bool
text_le [] t = true
text_le (c ∷ s) [] = false
text_le (c ∷ s) (d ∷ t) = ltb c d || c == d && text_le s t
