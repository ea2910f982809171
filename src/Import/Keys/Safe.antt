-- ===== src/Import/Keys/Safe.antt =====
-- The binding key that is suggested for a label passes the checks that the requests make of a key.
use document_generation_anek.Prelude.{
  ℕ, zero, suc, ◌≤◌, ◌≡◌, refl, Bool, true, false, ◌||◌, [], ◌∷◌, all, take, length, length-take-le,
  leb, Bool-cases, inl, inr, arith,
}
use document_generation_anek.Text.{Text, strip}
use document_generation_anek.Text.Strip.{front, all-strip, strip_ends}
use document_generation_anek.Import.Patterns.{is_letter, is_ascii_digit, is_key_char}
use document_generation_anek.Import.Labels.{Unicode}
use document_generation_anek.Import.Keys.{
  is_word, is_underscore, words_joined, named, not_digit_first, transliterate,
  binding_key_from_label,
}
use document_generation_anek.Import.Confirmation.{is_safe_key}

abbrev is_key_part : ℕ → Bool
is_key_part c = is_word c || is_underscore c

words_joined-all : (b : Bool) (s : Text) → all is_key_part (words_joined b s) ≡ true
words_joined-all b [] = refl
words_joined-all b (c ∷ s) =
    let again = words_joined-all true s in let rest = words_joined-all false s in ground arith

key_part-key_char : (s : Text) → all is_key_part s ≡ true → all is_key_char s ≡ true
key_part-key_char [] h = refl
key_part-key_char (c ∷ s) h = ground (arith, key_part-key_char s)

word-key_part : (s : Text) → all is_word s ≡ true → all is_key_part s ≡ true
word-key_part [] h = refl
word-key_part (c ∷ s) h = ground (arith, word-key_part s)

all-take : (p : ℕ → Bool) (n : ℕ) (s : Text) → all p s ≡ true → all p (take n s) ≡ true
all-take p zero s h = refl
all-take p (suc n) [] h = refl
all-take p (suc n) (c ∷ s) h = ground (arith, all-take p n s)

module _ (u : Unicode) (hex : (s : Text) → all is_word (u.sha1 s) ≡ true) where
  -- made of key parts, and beginning with a letter or a digit
  abbrev IsNamed : Text → Type 0
  IsNamed s = (all is_key_part s ≡ true) × (front is_word s ≡ true)

  named-IsNamed :
      (label s : Text)
      → all is_key_part s ≡ true
      → front is_underscore s ≡ false
      → IsNamed (named u label s)
  named-IsNamed label [] h k =
      (word-key_part (take 8 (u.sha1 label)) (all-take is_word 8 (u.sha1 label) (hex label)), refl)
  named-IsNamed label (c ∷ s) h k = (h, ground arith)

  abbrev IsKey : Text → Type 0
  IsKey s = (all is_key_part s ≡ true) × (front is_letter s ≡ true)

  not_digit_first-IsKey : (s : Text) → IsNamed s → IsKey (not_digit_first s)
  not_digit_first-IsKey [] (h, k) = (h, k)
  not_digit_first-IsKey (c ∷ s) (h, k) = elim (Bool-cases (is_ascii_digit c)) [
    | inl e ↦ rw e (h, refl)
    | inr e ↦ rw e (h, word_no_digit c k e)
  ]
    where
      word_no_digit : (c : ℕ) → is_word c ≡ true → is_ascii_digit c ≡ false → is_letter c ≡ true
      word_no_digit c k e = ground arith

  within : (s : Text) → length s ≤ 119 → leb (length s) 119 ≡ true
  within s h = ground arith

  IsKey-is_safe : (s : Text) → IsKey s → is_safe_key (take 120 s) ≡ true
  IsKey-is_safe [] (h, k) = k
  IsKey-is_safe (c ∷ s) (h, k) =
      let rest : all is_key_char (take 119 s) ≡ true =
        all-take is_key_char 119 s (key_part-key_char s (tail c s h)) in
      rw k (rw rest (within (take 119 s) (length-take-le 119 s)))
    where
      tail : (c : ℕ) (s : Text) → all is_key_part (c ∷ s) ≡ true → all is_key_part s ≡ true
      tail c s h = ground arith

  -- Where the digests are written with letters and digits, the binding key suggested for any label (of any script, or
  -- of none) is one that the confirming requests accept: it begins with a letter, has at most 120 characters, and
  -- has only letters, digits, underscores, dots and dashes.
  pub binding_key_from_label-is_safe_key :
      (label : Text) → is_safe_key (binding_key_from_label u label) ≡ true
  unfolding binding_key_from_label
  binding_key_from_label-is_safe_key label =
      let s = words_joined false (transliterate (u.lower label)) in
      IsKey-is_safe (not_digit_first (named u label (strip is_underscore s))) (
        not_digit_first-IsKey (named u label (strip is_underscore s)) (
          named-IsNamed label (strip is_underscore s)
            (all-strip is_key_part is_underscore s
              (words_joined-all false (transliterate (u.lower label))))
            (strip_ends is_underscore s).0))
