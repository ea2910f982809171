-- ===== src/Text/Split.antt =====
-- `s.split(c)` and `c.join(parts)` for a separator of one character.
use document_generation_anek.Prelude.{
  ℕ, ◌≡◌, refl, Bool-cases, inl, inr, List, [], ◌∷◌, ◌++◌, true, all, not, ◌==◌, if◌then◌else◌,
  arith,
}
use document_generation_anek.Text.{Text}

-- a character in front of the first part
abbrev pub push : ℕ → List Text → List Text
push x [] = (x ∷ []) ∷ []
push x (part ∷ parts) = (x ∷ part) ∷ parts

abbrev pub split : ℕ → Text → List Text
split c [] = [] ∷ []
split c (x ∷ s) = let rest = split c s in if x == c then [] ∷ rest else push x rest

abbrev pub join : ℕ → List Text → Text
join c [] = []
join c (part ∷ []) = part
join c (part ∷ next ∷ parts) = part ++ (c ∷ join c (next ∷ parts))

abbrev pub Free : ℕ → Text → Type 0
Free c s = all (λ x. not (x == c)) s ≡ true

push-append :
    (x : ℕ) (part : Text) (parts more : List Text)
    → push x ((part ∷ parts) ++ more) ≡ push x (part ∷ parts) ++ more
push-append x part parts more = refl

split-cons : (c : ℕ) (s : Text) → (part : Text) × (parts : List Text) × (split c s ≡ part ∷ parts)
split-cons c [] = ([], [], refl)
split-cons c (x ∷ s) =
    let (part, parts, e) = split-cons c s in
    elim (Bool-cases (x == c)) [
      | inl h ↦ ([], split c s, rw h refl)
      | inr h ↦ (x ∷ part, parts, rw (h, e) refl)
    ]

-- A separator splits: what stands on its two sides is split on its own.
pub split-append : (c : ℕ) (s t : Text) → split c (s ++ (c ∷ t)) ≡ split c s ++ split c t
split-append c [] t = ground arith
split-append c (x ∷ s) t =
    let ih = split-append c s t in
    let (part, parts, e) = split-cons c s in
    elim (Bool-cases (x == c)) [ inl h ↦ rw (h, ih) refl | inr h ↦ rw (h, ih, e) refl ]

pub split-Free : (c : ℕ) (s : Text) → Free c s → split c s ≡ s ∷ []
split-Free c [] h = refl
split-Free c (x ∷ s) h = ground (arith, split-Free c s)
