-- ===== src/Prelude/Sorting.antt =====
-- `order_by`, `sorted` and `limit`: a stable insertion sort by a Boolean order.
use Prim.Native.Nat.{ℕ, zero, suc, ◌≤◌}
use mathlib.Core.Path.{◌≡◌, refl}
use mathlib.Core.Bool.{Bool, true, false, ◌||◌}
use mathlib.Core.List.{List, [], ◌∷◌}
use native.Mathlib.Omega.{arith}
use document_generation_anek.Prelude.Tests.{if◌then◌else◌}
use document_generation_anek.Prelude.Lists.{length, take, any, All}
use document_generation_anek.Prelude.Rows.{select}

module _ {ℓ} {A : Type ℓ} where
  abbrev pub insert_by : (A → A → Bool) → A → List A → List A
  insert_by le x [] = x ∷ []
  insert_by le x (y ∷ ys) = if le x y then x ∷ y ∷ ys else y ∷ insert_by le x ys

  abbrev pub sort_by : (A → A → Bool) → List A → List A
  sort_by le [] = []
  sort_by le (x ∷ xs) = insert_by le x (sort_by le xs)

  pub length-insert_by :
      (le : A → A → Bool) (x : A) (xs : List A) → length (insert_by le x xs) ≡ suc (length xs)
  length-insert_by le x [] = refl
  length-insert_by le x (y ∷ ys) = ground (arith, length-insert_by le x ys)

  pub length-sort_by : (le : A → A → Bool) (xs : List A) → length (sort_by le xs) ≡ length xs
  length-sort_by le [] = refl
  length-sort_by le (x ∷ xs) =
      omega (arith, length-insert_by le x (sort_by le xs), length-sort_by le xs)

  pub any-insert_by :
      (le : A → A → Bool) (p : A → Bool) (x : A) (xs : List A)
      → any p (insert_by le x xs) ≡ (p x || any p xs)
  any-insert_by le p x [] = refl
  any-insert_by le p x (y ∷ ys) = ground (arith, any-insert_by le p x ys)

  -- sorting neither loses nor invents a row
  pub any-sort_by :
      (le : A → A → Bool) (p : A → Bool) (xs : List A) → any p (sort_by le xs) ≡ any p xs
  any-sort_by le p [] = refl
  any-sort_by le p (x ∷ xs) =
      ground (arith, any-insert_by le p x (sort_by le xs), any-sort_by le p xs)

  pub length-take-le : (n : ℕ) (xs : List A) → length (take n xs) ≤ n
  length-take-le zero xs = omega arith
  length-take-le (suc n) [] = omega arith
  length-take-le (suc n) (x ∷ xs) = omega (arith, length-take-le n xs)

  -- a limit that is not exceeded cuts nothing
  pub take-all : (n : ℕ) (xs : List A) → length xs ≤ n → take n xs ≡ xs
  take-all zero [] h = refl
  take-all zero (x ∷ xs) h = absurd (omega arith)
  take-all (suc n) [] h = refl
  take-all (suc n) (x ∷ xs) h = cc (take-all n xs (omega arith))

module _ {ℓ κ} {A : Type ℓ} (P : A → Type κ) where
  pub All-insert_by :
      (le : A → A → Bool) (x : A) (xs : List A) → P x → All P xs → All P (insert_by le x xs)
  All-insert_by le x [] h hs = (h, tt)
  All-insert_by le x (y ∷ ys) h hs = put (le x y) (All-insert_by le x ys h hs.1)
    where
      put :
          (b : Bool)
          → All P (insert_by le x ys)
          → All P (if b then x ∷ y ∷ ys else y ∷ insert_by le x ys)
      put true r = (h, hs)
      put false r = (hs.0, r)

  pub All-sort_by : (le : A → A → Bool) (xs : List A) → All P xs → All P (sort_by le xs)
  All-sort_by le [] h = tt
  All-sort_by le (x ∷ xs) h = All-insert_by le x (sort_by le xs) h.0 (All-sort_by le xs h.1)

  pub All-take : (n : ℕ) (xs : List A) → All P xs → All P (take n xs)
  All-take zero xs h = tt
  All-take (suc n) [] h = tt
  All-take (suc n) (x ∷ xs) h = (h.0, All-take n xs h.1)

  pub All-select : (p : A → Bool) (xs : List A) → All P xs → All P (select p xs)
  All-select p [] h = tt
  All-select p (x ∷ xs) h = keep (p x) (All-select p xs h.1)
    where
      keep : (b : Bool) → All P (select p xs) → All P (if b then x ∷ select p xs else select p xs)
      keep true r = (h.0, r)
      keep false r = r

  -- what holds of the selected rows holds of the rows that meet the condition
  pub All-of_select :
      (p : A → Bool) (xs : List A) → All P (select p xs) → All (λ x. p x ≡ true → P x) xs
  All-of_select p [] h = tt
  All-of_select p (x ∷ xs) h = split (All-of_select p xs) (p x) refl h
    where
      split :
          (All P (select p xs) → All (λ y. p y ≡ true → P y) xs)
          → (b : Bool) → p x ≡ b
          → All P (if b then x ∷ select p xs else select p xs)
          → (p x ≡ true → P x) × All (λ y. p y ≡ true → P y) xs
      split rest true e g = (λ _. g.0, rest g.1)
      split rest false e g = (λ t. absurd (cc), rest g)

pub All-select_self {ℓ} :
    {A : Type ℓ} (p : A → Bool) (xs : List A) → All (λ x. p x ≡ true) (select p xs)
All-select_self p [] = tt
All-select_self p (x ∷ xs) = keep (p x) refl (All-select_self p xs)
  where
    keep :
        (b : Bool)
        → p x ≡ b
        → All (λ y. p y ≡ true) (select p xs)
        → All (λ y. p y ≡ true) (if b then x ∷ select p xs else select p xs)
    keep true e r = (e, r)
    keep false e r = r

-- The first row of a sorted list comes before every row.
module _ {A : Type 0} (le : A → A → Bool) (total : (a b : A) → le a b ≡ false → le b a ≡ true)
    (trans : (a b c : A) → le a b ≡ true → le b c ≡ true → le a c ≡ true) where
  abbrev pub Least : List A → List A → Type 0
  Least [] xs = xs ≡ []
  Least (h ∷ t) xs = All (λ y. le h y ≡ true) xs

  reflexive : (a : A) → le a a ≡ true
  reflexive a = ground (arith, total a a)

  weaken :
      (a b : A) (xs : List A)
      → le a b ≡ true
      → All (λ y. le b y ≡ true) xs
      → All (λ y. le a y ≡ true) xs
  weaken a b [] h w = tt
  weaken a b (x ∷ xs) h w = (trans a b x h w.0, weaken a b xs h w.1)

  insert_by-Least : (x : A) (s xs : List A) → Least s xs → Least (insert_by le x s) (x ∷ xs)
  insert_by-Least x [] xs h = rw h (reflexive x, tt)
  insert_by-Least x (y ∷ ys) xs h = split (le x y) refl
    where
      split :
          (b : Bool) → le x y ≡ b → Least (if b then x ∷ y ∷ ys else y ∷ insert_by le x ys) (x ∷ xs)
      split true e = (reflexive x, weaken x y xs e h)
      split false e = (total x y e, h)

  pub sort_by-Least : (xs : List A) → Least (sort_by le xs) xs
  sort_by-Least [] = refl
  sort_by-Least (x ∷ xs) = insert_by-Least x (sort_by le xs) xs (sort_by-Least xs)
