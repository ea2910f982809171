-- ===== src/Import/Spans.antt =====
-- What `finditer` returns: proper spans of the text, in order and apart, with the text that stands there.
use mathlib.Core.Path.{subst}
use mathlib.Core.List.{append_assoc}
use document_generation_anek.Prelude.{
  ℕ, zero, suc, ◌+◌, ◌-◌, ◌≤◌, ◌<◌, ◌≡◌, refl, ◌∙◌, ◌⊎◌, ◌&&◌, Bool, true, false, not, ◌||◌, Option,
  none, some, List, [], ◌∷◌, ◌++◌, All, take, length, length-append, take-append, drop-append,
  take-all, drop-all, leb, ◌==◌, Bool-cases, inl, inr, if◌then◌else◌, arith,
}
use document_generation_anek.Text.{Text, slice, is_space, lstrip}
use document_generation_anek.Import.Patterns.{
  Match, Matcher, find_from, find_all, span, after_char, after_two, matched, is_key_char, is_letter,
  placeholder_key, placeholder, label_in, first_match, square, angle, quoted, bracket, run_of,
  blank,
}

-- a matcher that matches within the text, and never nothing
abbrev pub IsProper : Matcher → Type 0
IsProper m = (s : Text) (n : ℕ) (g : Text) → m s ≡ some (n, g) → (0 < n) × (n ≤ length s)

length-span : (p : ℕ → Bool) (s : Text) → length (span p s).0 + length (span p s).1 ≡ length s
length-span p [] = omega arith
length-span p (c ∷ s) = ground (arith, length-span p s)

length-lstrip : (p : ℕ → Bool) (s : Text) → length (lstrip p s) ≤ length s
length-lstrip p [] = omega arith
length-lstrip p (c ∷ s) = ground (arith, length-lstrip p s)

length-after_char : (c : ℕ) (s r : Text) → after_char c s ≡ some r → length s ≡ suc (length r)
length-after_char c [] r h = absurd (cc)
length-after_char c (d ∷ s) r h = ground arith

length-after_two :
    (c d : ℕ) (s r : Text) → after_two c d s ≡ some r → length s ≡ suc (suc (length r))
length-after_two c d s r h = go (after_char c s) refl h
  where
    go :
        (o : Option Text)
        → after_char c s ≡ o
        → elim o as (λ _. Option Text) [ none ↦ none | some rest ↦ after_char d rest ] ≡ some r
        → length s ≡ suc (suc (length r))
    go none e k = absurd (cc)
    go (some t) e k = omega (arith, length-after_char c s t e, length-after_char d t r k)

-- a match that ends before a rest that is shorter
matched_proper :
    (s g : Text) (o : Option Text) (n : ℕ) (group : Text)
    → ((r : Text) → o ≡ some r → length r < length s)
    → matched s g o ≡ some (n, group)
    → (0 < n) × (n ≤ length s)
matched_proper s g none n group shorter h = absurd (cc)
matched_proper s g (some r) n group shorter h =
    let l = shorter r refl in (ground arith, ground arith)

placeholder_key_proper :
    (s u : Text) (n : ℕ) (g : Text)
    → length u < length s
    → placeholder_key s u ≡ some (n, g)
    → (0 < n) × (n ≤ length s)
placeholder_key_proper s [] n g short h = absurd (cc)
placeholder_key_proper s (c ∷ t) n g short h =
    pick (is_letter c && leb (length (span is_key_char t).0) 119) h
  where
    closes :
        (r : Text)
        → after_two b'}' b'}' (lstrip is_space (span is_key_char t).1) ≡ some r
        → length r < length s
    closes r e = omega (
      arith,
      length-after_two b'}' b'}' (lstrip is_space (span is_key_char t).1) r e,
      length-lstrip is_space (span is_key_char t).1,
      length-span is_key_char t,
    )

    pick :
        (b : Bool)
        → (if b
            then matched s
                (c ∷ (span is_key_char t).0)
                (after_two b'}' b'}' (lstrip is_space (span is_key_char t).1))
            else none)
          ≡ some (n, g)
        → (0 < n) × (n ≤ length s)
    pick true k =
        matched_proper s (c ∷ (span is_key_char t).0)
          (after_two b'}' b'}' (lstrip is_space (span is_key_char t).1)) n g closes k
    pick false k = absurd (cc)

pub placeholder-IsProper : IsProper placeholder
unfolding placeholder
placeholder-IsProper s n g h = go (after_two b'{' b'{' s) refl h
  where
    go :
        (o : Option Text)
        → after_two b'{' b'{' s ≡ o
        → elim o as (λ _. Option (ℕ × Text)) [
          | none ↦ none
          | some t ↦ placeholder_key s (lstrip is_space t)
        ]
          ≡ some (n, g)
        → (0 < n) × (n ≤ length s)
    go none e k = absurd (cc)
    go (some t) e k =
        placeholder_key_proper s (lstrip is_space t) n g
          (omega (arith, length-after_two b'{' b'{' s t e, length-lstrip is_space t)) k

label_in_proper :
    (s : Text) (p : ℕ → Bool) (close : Text → Option Text) (o : Option Text) (n : ℕ) (g : Text)
    → ((t : Text) → o ≡ some t → length t < length s)
    → ((t r : Text) → close t ≡ some r → length r < length t)
    → label_in s p close o ≡ some (n, g)
    → (0 < n) × (n ≤ length s)
label_in_proper s p close none n g opened closed h = absurd (cc)
label_in_proper s p close (some t) n g opened closed h =
    pick (leb 2 (length (span p t).0) && leb (length (span p t).0) 120) h
  where
    pick :
        (b : Bool)
        → (if b then matched s (span p t).0 (close (span p t).1) else none) ≡ some (n, g)
        → (0 < n) × (n ≤ length s)
    pick true k =
        matched_proper s (span p t).0 (close (span p t).1) n g
          (λ r e. omega (arith, closed (span p t).1 r e, opened t refl, length-span p t)) k
    pick false k = absurd (cc)

first_match-cases :
    (o o' : Option (ℕ × Text)) (m : ℕ × Text)
    → first_match o o' ≡ some m
    → (o ≡ some m) ⊎ (o' ≡ some m)
first_match-cases none o' m h = inr h
first_match-cases (some x) o' m h = inl h

-- each alternative opens with a character, or two, and closes likewise
square-IsProper : IsProper square
unfolding square
square-IsProper s n g h =
    label_in_proper s (λ c. not (c == b'[' || c == b']' || c == b'\n')) (after_char b']')
      (after_char b'[' s) n g (λ t e. omega (arith, length-after_char b'[' s t e))
      (λ t r e. omega (arith, length-after_char b']' t r e)) h

angle-IsProper : IsProper angle
unfolding angle
angle-IsProper s n g h =
    label_in_proper s (λ c. not (c == b'<' || c == b'>' || c == b'\n')) (after_two b'>' b'>')
      (after_two b'<' b'<' s) n g (λ t e. omega (arith, length-after_two b'<' b'<' s t e))
      (λ t r e. omega (arith, length-after_two b'>' b'>' t r e)) h

quoted-IsProper : IsProper quoted
unfolding quoted
quoted-IsProper s n g h =
    label_in_proper s (λ c. not (c == 171 || c == 187 || c == b'\n')) (after_char 187)
      (after_char 171 s) n g (λ t e. omega (arith, length-after_char 171 s t e))
      (λ t r e. omega (arith, length-after_char 187 t r e)) h

pub bracket-IsProper : IsProper bracket
unfolding bracket
bracket-IsProper s n g h =
    elim (first_match-cases (square s) (first_match (angle s) (quoted s)) (n, g) h) [
      | inl a ↦ square-IsProper s n g a
      | inr k ↦ elim (first_match-cases (angle s) (quoted s) (n, g) k) [
        | inl a ↦ angle-IsProper s n g a
        | inr a ↦ quoted-IsProper s n g a
      ]
    ]

run_of_proper :
    (c : ℕ) (s : Text) (n : ℕ) (g : Text) → run_of c s ≡ some (n, g) → (0 < n) × (n ≤ length s)
run_of_proper c s n g h =
    let l = length-span (λ d. d == c) s in
    let m : length s - length (span (λ d. d == c) s).1 ≡ length (span (λ d. d == c) s).0 =
      omega arith in
    pick (Bool-cases (leb 4 (length (span (λ d. d == c) s).0))) m l
  where
    pick :
        (leb 4 (length (span (λ d. d == c) s).0) ≡ true)
          ⊎ (leb 4 (length (span (λ d. d == c) s).0) ≡ false)
        → length s - length (span (λ d. d == c) s).1 ≡ length (span (λ d. d == c) s).0
        → length (span (λ d. d == c) s).0 + length (span (λ d. d == c) s).1 ≡ length s
        → (0 < n) × (n ≤ length s)
    pick (inl e) m l =
        let k : matched s (span (λ d. d == c) s).0 (some (span (λ d. d == c) s).1) ≡ some (n, g) =
          rw e at h in
        let q : length s - length (span (λ d. d == c) s).1 ≡ n = cc in (ground arith, ground arith)
    pick (inr e) m l =
        let k : ◌≡◌ {A = Option (ℕ × Text)} none (some (n, g)) = rw e at h in absurd (cc)

pub blank-IsProper : IsProper blank
unfolding blank
blank-IsProper s n g h = elim (first_match-cases (run_of b'_' s) (run_of b'.' s) (n, g) h) [
  | inl a ↦ run_of_proper b'_' s n g a
  | inr a ↦ run_of_proper b'.' s n g a
]

-- a match within `text`
abbrev pub IsSpan : Text → Match → Type 0
IsSpan text x = (x.start < x.end) × (x.end ≤ length text) × (slice x.start x.end text ≡ x.raw)

slice_behind : (pre s : Text) (n : ℕ) → slice (length pre) (length pre + n) (pre ++ s) ≡ take n s
slice_behind pre s n =
    let a : length pre + n - length pre ≡ n = omega arith in
    let b : length pre - length pre ≡ 0 = omega arith in
    rw (take-append (length pre + n) pre s) (
      rw (take-all (length pre + n) pre (omega arith)) (
        rw a (
          drop-append (length pre) pre (take n s)
          ∙ rw (drop-all (length pre) pre (omega arith)) (rw b refl))))

snoc_append : (pre : Text) (c : ℕ) (s : Text) → (pre ++ c ∷ []) ++ s ≡ pre ++ (c ∷ s)
snoc_append pre c s = append_assoc pre (c ∷ []) s

find_from-IsSpan :
    (m : Matcher)
    → IsProper m
    → (pre s : Text) (i skip : ℕ) → length pre ≡ i
    → All (IsSpan (pre ++ s)) (find_from m i skip s)
find_from-IsSpan m proper pre [] i skip e = tt
find_from-IsSpan m proper pre (c ∷ s) i (suc k) e =
    let l = length-append pre (c ∷ []) in
    subst (λ t. All (IsSpan t) (find_from m (suc i) k s)) (snoc_append pre c s)
      (find_from-IsSpan m proper (pre ++ c ∷ []) s (suc i) k (omega arith))
find_from-IsSpan m proper pre (c ∷ s) i zero e = go (m (c ∷ s)) refl (λ k.
    subst (λ t. All (IsSpan t) (find_from m (suc i) k s)) (snoc_append pre c s)
      (let l = length-append pre (c ∷ []) in
        find_from-IsSpan m proper (pre ++ c ∷ []) s (suc i) k (omega arith)))
  where
    go :
        (o : Option (ℕ × Text))
        → m (c ∷ s) ≡ o
        → ((k : ℕ) → All (IsSpan (pre ++ (c ∷ s))) (find_from m (suc i) k s))
        → All (IsSpan (pre ++ (c ∷ s))) (elim o as (λ _. List Match) [
          | none ↦ find_from m (suc i) 0 s
          | some (n, group) ↦
              record { start = i; end = i + n; raw = take n (c ∷ s); group = group }
              ∷ find_from m (suc i) (n - 1) s
        ])
    go none q rec = rec 0
    go (some (n, group)) q rec =
        let (pos, le) = proper (c ∷ s) n group q in
        let l = length-append pre (c ∷ s) in
        let there : slice i (i + n) (pre ++ (c ∷ s)) ≡ take n (c ∷ s) =
          subst (λ j. slice j (j + n) (pre ++ (c ∷ s)) ≡ take n (c ∷ s)) e
            (slice_behind pre (c ∷ s) n) in
        ((omega arith, omega arith, there), rec (n - 1))

pub find_all-IsSpan : (m : Matcher) → IsProper m → (s : Text) → All (IsSpan s) (find_all m s)
unfolding find_all
find_all-IsSpan m proper s = find_from-IsSpan m proper [] s 0 0 refl
