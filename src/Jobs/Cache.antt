-- ===== src/Jobs/Cache.antt =====
-- `find_completed_cache_hit`: which finished job a new request may reuse.
use Prim.Native.String.{String}
use document_generation_anek.Prelude.{
  ℕ, suc, ◌||◌, ◌∙◌, ◌≡◌, refl, ap, none, some, List, [], ◌∷◌, true, false, arith, All, All-sort_by,
  All-select_self, sort_by, sort_by-Least, Least, select, any, length, length-sort_by,
  if◌then◌else◌, Bool,
}
use mathlib.Core.Path.{subst}
use document_generation_anek.Result.{ok}
use document_generation_anek.Models.{DocumentJob}
use document_generation_anek.Database.{Db}
use document_generation_anek.Jobs.{completed_desc, is_cache_hit, first, find_completed_cache_hit}

total_desc : (a b : DocumentJob) → completed_desc a b ≡ false → completed_desc b a ≡ true
total_desc a b h = ground arith

trans_desc :
    (a b c : DocumentJob)
    → completed_desc a b ≡ true
    → completed_desc b c ≡ true
    → completed_desc a c ≡ true
trans_desc a b c h k = ground arith

-- the rows that the query may return, in its order
abbrev hits : ℕ → ℕ → String → List DocumentJob → List DocumentJob
hits o v key jobs = sort_by completed_desc (select (is_cache_hit o v key) jobs)

first-All :
    (P : DocumentJob → Type 0) (xs : List DocumentJob) (j : DocumentJob)
    → first xs ≡ some j
    → All P xs
    → P j
first-All P [] j e h = absurd (cc)
first-All P (x ∷ xs) j e h = let q : x ≡ j = cc in subst P q h.0

first-Least :
    (s xs : List DocumentJob) (j : DocumentJob)
    → first s ≡ some j
    → Least completed_desc total_desc trans_desc s xs
    → All (λ r. completed_desc j r ≡ true) xs
first-Least [] xs j e h = absurd (cc)
first-Least (x ∷ s) xs j e h =
    let q : x ≡ j = cc in subst (λ k. All (λ r. completed_desc k r ≡ true) xs) q h

-- A hit is a completed job of the same organization, template version and cache key, none of the
-- jobs that match was completed after it, and the query writes nothing.
pub hit_most_recent :
    (o v : ℕ) (key : String) (j : DocumentJob) (db db' : Db)
    → find_completed_cache_hit o v key db ≡ ok (some j, db')
    → (is_cache_hit o v key j ≡ true)
      × All (λ r. completed_desc j r ≡ true) (select (is_cache_hit o v key) db.jobs)
      × (db' ≡ db)
unfolding find_completed_cache_hit
hit_most_recent o v key j db db' e =
    let f : first (hits o v key db.jobs) ≡ some j = cc in
    (
      first-All (λ r. is_cache_hit o v key r ≡ true) (hits o v key db.jobs) j f
          (All-sort_by _ completed_desc (select (is_cache_hit o v key) db.jobs)
            (All-select_self (is_cache_hit o v key) db.jobs)),
      first-Least (hits o v key db.jobs) (select (is_cache_hit o v key) db.jobs) j f (
          sort_by-Least completed_desc total_desc trans_desc
            (select (is_cache_hit o v key) db.jobs)),
      cc,
    )

select-nil : (p : DocumentJob → Bool) (xs : List DocumentJob) → any p xs ≡ false → select p xs ≡ []
select-nil p [] h = refl
select-nil p (x ∷ xs) h = ground (arith, select-nil p xs)

select-cons :
    (p : DocumentJob → Bool) (xs : List DocumentJob)
    → any p xs ≡ true
    → (x : DocumentJob) × (rest : List DocumentJob) × (select p xs ≡ x ∷ rest)
select-cons p [] h = absurd (cc)
select-cons p (x ∷ xs) h = go (p x) (select-cons p xs) h
  where
    go :
        (b : Bool)
        → (any p xs ≡ true
            → (y : DocumentJob) × (rest : List DocumentJob) × (select p xs ≡ y ∷ rest))
        → (b || any p xs) ≡ true
        → (y : DocumentJob) × (rest : List DocumentJob) × ((if b
              then x ∷ select p xs
              else select p xs)
            ≡ y ∷ rest)
    go true rec t = (x, select p xs, refl)
    go false rec t = rec t

first-some :
    (s : List DocumentJob) (n : ℕ) → length s ≡ suc n → (j : DocumentJob) × (first s ≡ some j)
first-some [] n h = absurd (omega arith)
first-some (x ∷ s) n h = (x, refl)

pub hit_none :
    (o v : ℕ) (key : String) (db : Db)
    → any (is_cache_hit o v key) db.jobs ≡ false
    → find_completed_cache_hit o v key db ≡ ok (none, db)
unfolding find_completed_cache_hit
hit_none o v key db h = rw (select-nil (is_cache_hit o v key) db.jobs h) refl

-- Where some job matches, there is a hit.
pub hit_exists :
    (o v : ℕ) (key : String) (db : Db)
    → any (is_cache_hit o v key) db.jobs ≡ true
    → (j : DocumentJob) × (find_completed_cache_hit o v key db ≡ ok (some j, db))
unfolding find_completed_cache_hit
hit_exists o v key db h =
    let (x, rest, e) = select-cons (is_cache_hit o v key) db.jobs h in
    let (j, q) =
      first-some (hits o v key db.jobs) (length rest)
        (length-sort_by completed_desc (select (is_cache_hit o v key) db.jobs) ∙ ap length e) in
    (j, rw q refl)
