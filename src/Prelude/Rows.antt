-- ===== src/Prelude/Rows.antt =====
-- Tables as lists of rows: the queries and updates that the repositories make.
use Prim.Native.Nat.{ℕ, suc, ◌+◌}
use mathlib.Core.Path.{◌≡◌, refl, ap, subst}
use mathlib.Core.Bool.{Bool, true, false, ◌&&◌}
use mathlib.Core.Option.{Option, none, some}
use mathlib.Core.List.{List, [], ◌∷◌, ◌++◌}
use native.Mathlib.Omega.{arith}
use document_generation_anek.Prelude.Tests.{if◌then◌else◌}
use document_generation_anek.Prelude.Lists.{length, All}

module _ {ℓ} {A : Type ℓ} where
  -- `select(...).where(p)`, the first row
  abbrev pub find : (A → Bool) → List A → Option A
  find p [] = none
  find p (x ∷ xs) = if p x then some x else find p xs

  -- `select(...).where(p)`, every row
  abbrev pub select : (A → Bool) → List A → List A
  select p [] = []
  select p (x ∷ xs) = let rest = select p xs in if p x then x ∷ rest else rest

  -- writes to the attributes of the rows that satisfy `p`
  abbrev pub update : (A → Bool) → (A → A) → List A → List A
  update p f [] = []
  update p f (x ∷ xs) = (if p x then f x else x) ∷ update p f xs

  pub find_sound : (p : A → Bool) (xs : List A) (a : A) → find p xs ≡ some a → p a ≡ true
  find_sound p [] a h = ground arith
  find_sound p (x ∷ xs) a h = ground (arith, find_sound p xs a)

  pub find-All {κ} :
      (P : A → Type κ) (p : A → Bool) (xs : List A) (a : A) → find p xs ≡ some a → All P xs → P a
  find-All P p [] a h w = absurd (cc)
  find-All P p (x ∷ xs) a h w = pick (p x) (find-All P p xs a) h
    where
      pick :
          (b : Bool)
          → (find p xs ≡ some a → All P xs → P a)
          → (if b then some x else find p xs) ≡ some a
          → P a
      pick true rec e = let q : x ≡ a = cc in subst P q w.0
      pick false rec e = rec e w.1

  pub length-update : (p : A → Bool) (f : A → A) (xs : List A) → length (update p f xs) ≡ length xs
  length-update p f [] = refl
  length-update p f (x ∷ xs) = ap suc (length-update p f xs)

  -- an update that keeps `P` row by row keeps it of the table
  pub All-update {κ} :
      (P : A → Type κ) (p : A → Bool) (f : A → A) (xs : List A)
      → ((x : A) → p x ≡ true → P x → P (f x))
      → All P xs
      → All P (update p f xs)
  All-update P p f [] h w = tt
  All-update P p f (x ∷ xs) h w = (step (p x) (h x), All-update P p f xs h w.1)
    where
      step : (b : Bool) → (b ≡ true → P x → P (f x)) → P (if b then f x else x)
      step true g = g refl w.0
      step false g = w.0

  pub All-append {κ} : (P : A → Type κ) (xs ys : List A) → All P xs → All P ys → All P (xs ++ ys)
  All-append P [] ys hx hy = hy
  All-append P (x ∷ xs) ys hx hy = (hx.0, All-append P xs ys hx.1 hy)

  pub All-weaken {κ μ} :
      (P : A → Type κ) (Q : A → Type μ) (xs : List A) → ((x : A) → P x → Q x) → All P xs → All Q xs
  All-weaken P Q [] f h = tt
  All-weaken P Q (x ∷ xs) f h = (f x h.0, All-weaken P Q xs f h.1)

  abbrev pub count_by : (A → Bool) → List A → ℕ
  count_by p [] = 0
  count_by p (x ∷ xs) = (if p x then 1 else 0) + count_by p xs

  pub count_by-append :
      (p : A → Bool) (xs ys : List A) → count_by p (xs ++ ys) ≡ count_by p xs + count_by p ys
  count_by-append p [] ys = omega arith
  count_by-append p (x ∷ xs) ys = omega (arith, count_by-append p xs ys)

  pub count_by-find-none : (p : A → Bool) (xs : List A) → find p xs ≡ none → count_by p xs ≡ 0
  count_by-find-none p [] h = refl
  count_by-find-none p (x ∷ xs) h = ground (arith, count_by-find-none p xs)

  pub find-append_some :
      (p : A → Bool) (xs ys : List A) (a : A) → find p xs ≡ some a → find p (xs ++ ys) ≡ some a
  find-append_some p [] ys a h = absurd (cc)
  find-append_some p (x ∷ xs) ys a h = ground (arith, find-append_some p xs ys a)

  pub find-append_none :
      (p : A → Bool) (xs ys : List A) → find p xs ≡ none → find p (xs ++ ys) ≡ find p ys
  find-append_none p [] ys h = refl
  find-append_none p (x ∷ xs) ys h = ground (arith, find-append_none p xs ys)

  -- an update that does not change whether `p` holds, seen by a query
  pub find-update :
      (p q : A → Bool) (f : A → A) (xs : List A) (a : A)
      → ((x : A) → p (f x) ≡ p x)
      → find p xs ≡ some a
      → find p (update q f xs) ≡ some (if q a then f a else a)
  find-update p q f [] a same h = absurd (cc)
  find-update p q f (x ∷ xs) a same h = ground (arith, same x, find-update p q f xs a same)

  pub find-update-none :
      (p q : A → Bool) (f : A → A) (xs : List A)
      → ((x : A) → p (f x) ≡ p x)
      → find p xs ≡ none
      → find p (update q f xs) ≡ none
  find-update-none p q f [] same h = refl
  find-update-none p q f (x ∷ xs) same h = ground (arith, same x, find-update-none p q f xs same)

  -- an update that takes `p` away from every row that has it
  pub find-update_lost :
      (p q : A → Bool) (f : A → A) (xs : List A)
      → All (λ x. p x ≡ true → q x ≡ true) xs
      → ((x : A) → p (f x) ≡ false)
      → find p (update q f xs) ≡ none
  find-update_lost p q f [] h lost = refl
  find-update_lost p q f (x ∷ xs) h lost =
      here (p x) (q x) refl refl (h.0) (find-update_lost p q f xs h.1 lost)
    where
      here :
          (b c : Bool)
          → p x ≡ b
          → q x ≡ c
          → (p x ≡ true → q x ≡ true)
          → find p (update q f xs) ≡ none
          → (if p (if c then f x else x)
              then some (if c then f x else x)
              else find p (update q f xs))
            ≡ none
      here b true hb hc g rec = rw (lost x) rec
      here true false hb hc g rec = absurd (cc (g hb))
      here false false hb hc g rec = rw hb rec

  -- an update that gives `p` to the updated rows, where no row had it
  pub find-update_gained :
      (p q : A → Bool) (f : A → A) (xs : List A) (a : A)
      → ((x : A) → p (f x) ≡ true)
      → find p xs ≡ none
      → find q xs ≡ some a
      → find p (update q f xs) ≡ some (f a)
  find-update_gained p q f [] a gain n h = absurd (cc)
  find-update_gained p q f (x ∷ xs) a gain n h =
      here (p x) (q x) refl refl n h (find-update_gained p q f xs a gain)
    where
      here :
          (b c : Bool)
          → p x ≡ b
          → q x ≡ c
          → (if b then some x else find p xs) ≡ none
          → (if c then some x else find q xs) ≡ some a
          → (find p xs ≡ none → find q xs ≡ some a → find p (update q f xs) ≡ some (f a))
          → (if p (if c then f x else x)
              then some (if c then f x else x)
              else find p (update q f xs))
            ≡ some (f a)
      here true c hb hc m k rec = absurd (cc)
      here false true hb hc m k rec = let e : x ≡ a = cc in rw (gain x) (ap (λ y. some (f y)) e)
      here false false hb hc m k rec = rw hb (rec m k)

  pub find-and :
      (p q : A → Bool) (xs : List A) (a : A)
      → find p xs ≡ some a
      → q a ≡ true
      → find (λ x. p x && q x) xs ≡ some a
  find-and p q [] a h k = absurd (cc)
  find-and p q (x ∷ xs) a h k = here (p x) h (find-and p q xs a)
    where
      here :
          (b : Bool)
          → (if b then some x else find p xs) ≡ some a
          → (find p xs ≡ some a → q a ≡ true → find (λ x. p x && q x) xs ≡ some a)
          → (if b && q x then some x else find (λ x. p x && q x) xs) ≡ some a
      here true e rec = let s : x ≡ a = cc in let t : q x ≡ true = rw s k in rw t e
      here false e rec = rec e k
