-- ===== src/Templates/Code/Slug.antt =====
-- The loop of `_normalize_code` ends, and what it returns is a slug.
use mathlib.Core.List.{reverse, reverse-cons}
use document_generation_anek.Prelude.{
  ℕ, zero, suc, ◌≤◌, ◌<◌, ◌≡◌, refl, sym, ◌∙◌, Bool, true, false, not, ◌&&◌, ◌||◌, ◌⊎◌, [], ◌∷◌,
  ◌++◌, any, length, all, Bool-cases, inl, inr, ◌==◌, arith,
}
use document_generation_anek.Text.{Text, text_eq, is_space, strip, lstrip, replace_char}
use document_generation_anek.Text.Strip.{
  front, back, back-reverse, any-reverse, all-strip, strip_ends,
}
use document_generation_anek.Result.{ok, err, validation}
use document_generation_anek.Templates.Code.{
  is_dash, pair_in, has_pair, halve, squeeze, normalize_code,
}

-- each round that finds a pair makes the text shorter
halve-le :
    (s : Text) → (length (halve false s) ≤ length s) × (length (halve true s) ≤ suc (length s))
halve-le [] = (omega arith, omega arith)
halve-le (c ∷ s) = let ih = halve-le s in (ground arith, ground arith)

halve-lt :
    (s : Text)
    → (pair_in false s ≡ true → length (halve false s) < length s)
      × (pair_in true s ≡ true → length (halve true s) < suc (length s))
halve-lt [] = (λ h. absurd (cc), λ h. absurd (cc))
halve-lt (c ∷ s) =
    let ih = halve-lt s in
    let le = halve-le s in
    elim (Bool-cases (is_dash c)) [
      | inl e ↦ (
        λ h. let k : pair_in true s ≡ true = ground arith in let l = ih.1 k in ground arith,
        λ h. ground arith,
      )
      | inr e ↦ (
        λ h. let k : pair_in false s ≡ true = ground arith in let l = ih.0 k in ground arith,
        λ h. let k : pair_in false s ≡ true = ground arith in let l = ih.0 k in ground arith,
      )
    ]

-- a character that is neither new nor a dash is not made by the loop
halve-all :
    (p : ℕ → Bool)
    → p b'-' ≡ true
    → (s : Text) → all p s ≡ true
    → (all p (halve false s) ≡ true) × (all p (halve true s) ≡ true)
halve-all p dash [] h = (refl, rw dash refl)
halve-all p dash (c ∷ s) h =
    let ih = halve-all p dash s (ground arith) in (ground arith, ground arith)

abbrev pub other : ℕ → Bool
other c = not (is_dash c)

any-halve :
    (s : Text)
    → (any other (halve false s) ≡ any other s) × (any other (halve true s) ≡ any other s)
any-halve [] = (refl, refl)
any-halve (c ∷ s) = let ih = any-halve s in (ground arith, ground arith)

squeeze_more :
    (fuel : ℕ) (s : Text) → has_pair s ≡ true → squeeze (suc fuel) s ≡ squeeze fuel (halve false s)
unfolding squeeze
squeeze_more fuel s e = rw (e, squeeze) refl

squeeze_done : (fuel : ℕ) (s : Text) → has_pair s ≡ false → squeeze (suc fuel) s ≡ ok s
unfolding squeeze
squeeze_done fuel s e = rw (e, squeeze) refl

-- With more fuel than characters the loop ends.
squeeze_ends :
    (p : ℕ → Bool)
    → p b'-' ≡ true
    → (fuel : ℕ) (s : Text) → length s < fuel
    → all p s ≡ true
    → (r : Text) × (squeeze fuel s ≡ ok r)
      × (has_pair r ≡ false)
      × (all p r ≡ true)
      × (any other r ≡ any other s)
squeeze_ends p dash zero s enough h = absurd (omega arith)
squeeze_ends p dash (suc fuel) s enough h = elim (Bool-cases (has_pair s)) [
  | inl e ↦
      let (r, run, rest, keeps, same) =
        squeeze_ends p dash fuel (halve false s) (let l = (halve-lt s).0 e in omega arith)
          (halve-all p dash s h).0 in
      (r, squeeze_more fuel s e ∙ run, rest, keeps, same ∙ (any-halve s).0)
  | inr e ↦ (s, squeeze_done fuel s e, e, h, refl)
]

-- the parts of `strip`
lstrip-keeps :
    (s : Text)
    → (pair_in false s ≡ false → pair_in false (lstrip is_dash s) ≡ false)
      × (any other (lstrip is_dash s) ≡ any other s)
lstrip-keeps [] = (λ h. refl, refl)
lstrip-keeps (c ∷ s) =
    let ih = lstrip-keeps s in
    elim (Bool-cases (is_dash c)) [
      | inl e ↦
          (λ h. let k : pair_in false s ≡ false = tail s (rw e at h) in rw e (ih.0 k), ground arith)
      | inr e ↦ (λ h. rw e h, ground arith)
    ]
  where
    tail : (t : Text) → pair_in true t ≡ false → pair_in false t ≡ false
    tail [] h = refl
    tail (d ∷ t) h = ground arith

pair_in-snoc :
    (b : Bool) (s : Text) (c : ℕ)
    → pair_in b (s ++ c ∷ []) ≡ (pair_in b s || back is_dash b s && is_dash c)
pair_in-snoc b [] c = ground arith
pair_in-snoc b (d ∷ s) c = let ih = pair_in-snoc (is_dash d) s c in ground arith

pair_in-front : (b : Bool) (s : Text) → pair_in b s ≡ (b && front is_dash s || pair_in false s)
pair_in-front b [] = ground arith
pair_in-front b (c ∷ s) = ground arith

has_pair-reverse : (s : Text) → has_pair (reverse s) ≡ has_pair s
has_pair-reverse [] = refl
has_pair-reverse (c ∷ s) =
    let ih = has_pair-reverse s in
    let snoc = pair_in-snoc false (reverse s) c in
    let last = back-reverse is_dash s in
    let first = pair_in-front (is_dash c) s in rw (reverse-cons c s) (ground arith)

-- neither empty nor with a dash at an end or two in a row, and without a character that `p` excludes
abbrev pub IsSlug : (ℕ → Bool) → Text → Type 0
IsSlug p s =
    (text_eq s [] ≡ false)
    × (has_pair s ≡ false)
    × (front is_dash s ≡ false)
    × (front is_dash (reverse s) ≡ false)
    × (all p s ≡ true)

strip-IsSlug :
    (p : ℕ → Bool) (s : Text)
    → has_pair s ≡ false
    → all p s ≡ true
    → text_eq (strip is_dash s) [] ≡ false
    → IsSlug p (strip is_dash s)
strip-IsSlug p s pairs chars nonempty =
    let t = lstrip is_dash s in
    let t_pairs : has_pair (reverse t) ≡ false = has_pair-reverse t ∙ (lstrip-keeps s).0 pairs in
    let u = lstrip is_dash (reverse t) in
    let (at_front, at_back) = strip_ends is_dash s in
    (
      nonempty,
      has_pair-reverse u ∙ (lstrip-keeps (reverse t)).0 t_pairs,
      at_front,
      at_back,
      all-strip p is_dash s chars,
    )

any-strip : (s : Text) → any other (strip is_dash s) ≡ any other s
any-strip s =
    any-reverse other (lstrip is_dash (reverse (lstrip is_dash s)))
    ∙ (lstrip-keeps (reverse (lstrip is_dash s))).1
    ∙ any-reverse other (lstrip is_dash s)
    ∙ (lstrip-keeps s).1

abbrev pub is_plain : ℕ → Bool
is_plain c = not (c == b' ' || c == b'_')

replaced : (s : Text) → all is_plain (replace_char b'_' b'-' (replace_char b' ' b'-' s)) ≡ true
replaced [] = refl
replaced (c ∷ s) = ground (arith, replaced s)

-- the code with a dash for every space and underscore
abbrev pub dashed : (Text → Text) → Text → Text
dashed lower code = replace_char b'_' b'-' (replace_char b' ' b'-' (lower (strip is_space code)))

-- Normalizing a template code always returns or refuses. It returns a slug: not empty, with no dash at either end, no
-- two dashes in a row, and no space or underscore. It refuses, with a validation error, a code of which nothing but
-- dashes is left.
pub normalize_code-IsSlug :
    (lower : Text → Text) (code : Text)
    → ((s : Text) × (normalize_code lower code ≡ ok s) × IsSlug is_plain s)
      ⊎ ((normalize_code lower code ≡ err validation) × (any other (dashed lower code) ≡ false))
unfolding normalize_code
normalize_code-IsSlug lower code =
    let slug = dashed lower code in
    let (r, run, pairs, chars, same) =
      squeeze_ends is_plain refl (suc (length slug)) slug (omega arith)
        (replaced (lower (strip is_space code))) in
    elim (Bool-cases (text_eq (strip is_dash r) [])) [
      | inl e ↦ inr (rw run (rw e refl), sym same ∙ sym (any-strip r) ∙ nothing (strip is_dash r) e)
      | inr e ↦ inl (strip is_dash r, rw run (rw e refl), strip-IsSlug is_plain r pairs chars e)
    ]
  where
    nothing : (s : Text) → text_eq s [] ≡ true → any other s ≡ false
    nothing [] k = refl
    nothing (c ∷ s) k = absurd (cc)
