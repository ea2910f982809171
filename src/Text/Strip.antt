-- ===== src/Text/Strip.antt =====
-- What `strip` keeps, and what it leaves at the ends.
use mathlib.Core.List.{reverse, reverse-cons, reverse-reverse}
use document_generation_anek.Prelude.{
  ℕ, ◌≡◌, refl, sym, ◌∙◌, Bool, true, false, [], ◌∷◌, ◌++◌, any, all, Bool-cases, inl, inr, arith,
}
use document_generation_anek.Text.{Text, lstrip, strip}

any-snoc : (q : ℕ → Bool) (s : Text) (c : ℕ) → any q (s ++ c ∷ []) ≡ any q (c ∷ s)
any-snoc q [] c = refl
any-snoc q (d ∷ s) c = ground (arith, any-snoc q s c)

pub any-reverse : (q : ℕ → Bool) (s : Text) → any q (reverse s) ≡ any q s
any-reverse q [] = refl
any-reverse q (c ∷ s) =
    let ih = any-reverse q s in rw (reverse-cons c s) (any-snoc q (reverse s) c ∙ ground arith)

all-snoc : (q : ℕ → Bool) (s : Text) (c : ℕ) → all q (s ++ c ∷ []) ≡ all q (c ∷ s)
all-snoc q [] c = refl
all-snoc q (d ∷ s) c = ground (arith, all-snoc q s c)

all-reverse : (q : ℕ → Bool) (s : Text) → all q (reverse s) ≡ all q s
all-reverse q [] = refl
all-reverse q (c ∷ s) =
    let ih = all-reverse q s in rw (reverse-cons c s) (all-snoc q (reverse s) c ∙ ground arith)

all-lstrip : (p q : ℕ → Bool) (s : Text) → all p s ≡ true → all p (lstrip q s) ≡ true
all-lstrip p q [] h = refl
all-lstrip p q (c ∷ s) h = ground (arith, all-lstrip p q s)

pub all-strip : (p q : ℕ → Bool) (s : Text) → all p s ≡ true → all p (strip q s) ≡ true
all-strip p q s h =
    all-reverse p (lstrip q (reverse (lstrip q s)))
    ∙ all-lstrip p q (reverse (lstrip q s)) (all-reverse p (lstrip q s) ∙ all-lstrip p q s h)

module _ (q : ℕ → Bool) where
  -- whether the first and the last character satisfy `q`
  abbrev pub front : Text → Bool
  front [] = false
  front (c ∷ s) = q c

  abbrev pub back : Bool → Text → Bool
  back b [] = b
  back b (c ∷ s) = back (q c) s

  pub back-snoc : (b : Bool) (s : Text) (c : ℕ) → back b (s ++ c ∷ []) ≡ q c
  back-snoc b [] c = refl
  back-snoc b (d ∷ s) c = back-snoc (q d) s c

  pub back-reverse : (s : Text) → back false (reverse s) ≡ front s
  back-reverse [] = refl
  back-reverse (c ∷ s) = rw (reverse-cons c s) (back-snoc false (reverse s) c)

  front-lstrip : (s : Text) → front (lstrip q s) ≡ false
  front-lstrip [] = refl
  front-lstrip (c ∷ s) = ground (arith, front-lstrip s)

  back-lstrip : (s : Text) → back false s ≡ false → back false (lstrip q s) ≡ false
  back-lstrip [] h = refl
  back-lstrip (c ∷ s) h = elim (Bool-cases (q c)) [
    | inl e ↦ rw e (back-lstrip s (weaker s (rw e at h)))
    | inr e ↦ rw e h
  ]
    where
      weaker : (t : Text) → back true t ≡ false → back false t ≡ false
      weaker [] k = refl
      weaker (d ∷ t) k = k

  -- neither end of a stripped text has a character that was to be stripped
  pub strip_ends : (s : Text) → (front (strip q s) ≡ false) × (front (reverse (strip q s)) ≡ false)
  strip_ends s =
      let t = lstrip q s in
      let u = lstrip q (reverse t) in
      let u_back : back false u ≡ false =
        back-lstrip (reverse t) (back-reverse t ∙ front-lstrip s) in
      (
        sym (back-reverse (reverse u)) ∙ rw (reverse-reverse u) u_back,
        rw (reverse-reverse u) (front-lstrip (reverse t)),
      )
