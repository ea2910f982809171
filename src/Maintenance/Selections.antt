-- ===== src/Maintenance/Selections.antt =====
-- Selections from a table out of which rows were deleted.
use document_generation_anek.Prelude.{
  ◌≤◌, ◌<◌, ◌≡◌, refl, Bool, true, false, not, ◌&&◌, ◌||◌, List, [], ◌∷◌, All, any, select, length,
  if◌then◌else◌, arith,
}
use document_generation_anek.Models.{DocumentJob}

module _ (p q : DocumentJob → Bool) where
  pub select-drop_le :
      (xs : List DocumentJob)
      → length (select p (select (λ r. not (q r)) xs)) ≤ length (select p xs)
  select-drop_le [] = omega arith
  select-drop_le (x ∷ xs) = go (p x) (q x) refl (select-drop_le xs)
    where
      go :
          (a b : Bool)
          → p x ≡ a
          → length (select p (select (λ r. not (q r)) xs)) ≤ length (select p xs)
          → length (
              select p
                (if not b then x ∷ select (λ r. not (q r)) xs else select (λ r. not (q r)) xs))
            ≤ length (if a then x ∷ select p xs else select p xs)
      go true true ha rec = omega arith
      go true false ha rec = rw ha (omega arith)
      go false true ha rec = rec
      go false false ha rec = rw ha rec

  -- what is dropped is counted
  pub select-drop :
      (xs : List DocumentJob)
      → any (λ r. p r && q r) xs ≡ true
      → length (select p (select (λ r. not (q r)) xs)) < length (select p xs)
  select-drop [] h = absurd (cc)
  select-drop (x ∷ xs) h = go (p x) (q x) refl refl h (select-drop xs)
    where
      go :
          (a b : Bool)
          → p x ≡ a
          → q x ≡ b
          → (a && b || any (λ r. p r && q r) xs) ≡ true
          → (any (λ r. p r && q r) xs ≡ true
              → length (select p (select (λ r. not (q r)) xs)) < length (select p xs))
          → length (
              select p
                (if not b then x ∷ select (λ r. not (q r)) xs else select (λ r. not (q r)) xs))
            < length (if a then x ∷ select p xs else select p xs)
      go true true ha hb k rec = let m = select-drop_le xs in omega arith
      go true false ha hb k rec = let m = rec k in rw ha (omega arith)
      go false true ha hb k rec = rec k
      go false false ha hb k rec = rw ha (rec k)

  -- where `q` holds of all that `p` selects, nothing of it is left
  pub select-none :
      (xs : List DocumentJob)
      → All (λ r. p r ≡ true → q r ≡ true) xs
      → any p (select (λ r. not (q r)) xs) ≡ false
  select-none [] h = refl
  select-none (x ∷ xs) h = go (p x) (q x) refl h.0 (select-none xs h.1)
    where
      go :
          (a b : Bool)
          → p x ≡ a
          → (p x ≡ true → b ≡ true)
          → any p (select (λ r. not (q r)) xs) ≡ false
          → any p (if not b then x ∷ select (λ r. not (q r)) xs else select (λ r. not (q r)) xs)
            ≡ false
      go a true ha g rec = rec
      go true false ha g rec = absurd (cc (g ha))
      go false false ha g rec = rw ha rec

  -- where `q` holds only of what `p` selects, the rest stays
  pub select_rest :
      (xs : List DocumentJob)
      → All (λ r. p r ≡ false → q r ≡ false) xs
      → select (λ r. not (p r)) (select (λ r. not (q r)) xs) ≡ select (λ r. not (p r)) xs
  select_rest [] h = refl
  select_rest (x ∷ xs) h = go (p x) (q x) refl h.0 (select_rest xs h.1)
    where
      go :
          (a b : Bool)
          → p x ≡ a
          → (p x ≡ false → b ≡ false)
          → select (λ r. not (p r)) (select (λ r. not (q r)) xs) ≡ select (λ r. not (p r)) xs
          → select
              (λ r. not (p r))
              (if not b then x ∷ select (λ r. not (q r)) xs else select (λ r. not (q r)) xs)
            ≡ (if not a then x ∷ select (λ r. not (p r)) xs else select (λ r. not (p r)) xs)
      go true true ha g rec = rec
      go true false ha g rec = rw ha rec
      go false true ha g rec = absurd (cc (g ha))
      go false false ha g rec = rw (ha, rec) refl
