-- ===== src/Jobs/Ids.antt =====
-- Which rows a list of loaded jobs names by its primary keys.
use document_generation_anek.Prelude.{
  ◌≡◌, refl, Bool, true, false, ◌&&◌, ◌||◌, List, [], ◌∷◌, All, All-weaken, any, select, ==-self,
  ◌==◌, if◌then◌else◌, arith,
}
use document_generation_anek.Models.{DocumentJob}
use document_generation_anek.Jobs.{has_id}

-- every selected row's key is among the selected rows' keys
pub has_id-select :
    (p : DocumentJob → Bool) (xs : List DocumentJob)
    → All (λ r. p r ≡ true → has_id (select p xs) r ≡ true) xs
has_id-select p [] = tt
has_id-select p (x ∷ xs) = (
  λ h. rw h (rw (==-self x.id) refl),
  All-weaken (λ r. p r ≡ true → has_id (select p xs) r ≡ true)
      (λ r. p r ≡ true → has_id (select p (x ∷ xs)) r ≡ true) xs grow (has_id-select p xs),
)
  where
    grow :
        (r : DocumentJob)
        → (p r ≡ true → has_id (select p xs) r ≡ true)
        → p r ≡ true
        → has_id (select p (x ∷ xs)) r ≡ true
    grow r f h = let k : has_id (select p xs) r ≡ true = f h in ground (arith, k)

-- a selected row is found again by its key
pub select-found :
    (p : DocumentJob → Bool) (xs : List DocumentJob)
    → All (λ j. any (λ r. p r && (j.id == r.id)) xs ≡ true) (select p xs)
select-found p [] = tt
select-found p (x ∷ xs) = go (p x) refl (select-found p xs)
  where
    grow :
        (j : DocumentJob)
        → any (λ r. p r && (j.id == r.id)) xs ≡ true
        → any (λ r. p r && (j.id == r.id)) (x ∷ xs) ≡ true
    grow j h = ground (arith, h)

    go :
        (a : Bool)
        → p x ≡ a
        → All (λ j. any (λ r. p r && (j.id == r.id)) xs ≡ true) (select p xs)
        → All
            (λ j. any (λ r. p r && (j.id == r.id)) (x ∷ xs) ≡ true)
            (if a then x ∷ select p xs else select p xs)
    go true e h = (rw (e, ==-self x.id) refl, All-weaken _ _ (select p xs) grow h)
    go false e h = All-weaken _ _ (select p xs) grow h

pub any_mono :
    (f g : DocumentJob → Bool) (xs : List DocumentJob)
    → ((r : DocumentJob) → f r ≡ true → g r ≡ true)
    → any f xs ≡ true
    → any g xs ≡ true
any_mono f g [] h k = absurd (cc)
any_mono f g (x ∷ xs) h k = go (f x) refl k (any_mono f g xs h)
  where
    go :
        (a : Bool)
        → f x ≡ a
        → (a || any f xs) ≡ true
        → (any f xs ≡ true → any g xs ≡ true)
        → (g x || any g xs) ≡ true
    go true e t rec = rw (h x e) refl
    go false e t rec = let r = rec t in ground (arith, r)
