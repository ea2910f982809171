-- ===== src/Rendering/Substitution.antt =====
-- All replacements of one paragraph: `sorted(..., reverse=True)` lets each one keep the positions of those
-- still to come.
use document_generation_anek.Prelude.{
  ℕ, zero, suc, ◌-◌, ◌≤◌, ◌<◌, ◌≡◌, refl, sym, ap, ◌∙◌, List, [], ◌∷◌, ◌++◌, arith, take, drop,
  length, length-append, drop-append, take-append, length-take_le, ◌⊎◌, inl, inr, All, All-sort_by,
  sort_by, insert_by, Bool-cases,
}
use mathlib.Core.List.{append_assoc, append-nil}
use mathlib.Core.Path.{subst}
use document_generation_anek.Result.{ok}
use document_generation_anek.Text.{Text, slice, concat}
use document_generation_anek.Rendering.{Replacement, apply_all, later_first, apply_sorted}
use document_generation_anek.Rendering.Spans.{replace_span-ok}

-- The text with every span replaced, read from the right: what lies in front of the last span is filled first.
unfoldable pub fill : Text → List Replacement → Text
fill t [] = t
fill t (r ∷ rs) = fill (take r.start t) rs ++ (r.value ++ drop r.end t)

-- The spans are proper, in descending order and disjoint, within the text, and read as their raw fragments.
unfoldable pub Fits : Text → List Replacement → Type 0
Fits t [] = Unit
Fits t (r ∷ rs) =
    (r.start < r.end)
    × (r.end ≤ length t)
    × (slice r.start r.end t ≡ r.raw_fragment)
    × Fits (take r.start t) rs

-- Spans that fit the front of the text stay valid whatever the tail already became.
apply_all-front :
    (rs : List Replacement) (p q : Text) (runs : List Text)
    → Fits p rs
    → concat runs ≡ p ++ q
    → (runs' : List Text) × (apply_all runs rs ≡ ok runs') × (concat runs' ≡ fill p rs ++ q)
unfolding Fits fill apply_all
apply_all-front [] p q runs h e = (runs, refl, e)
apply_all-front (r ∷ rs) p q runs (proper, within, same, fits) e =
    let l = length-append p q in
    let n : r.start - length p ≡ 0 = omega arith in
    let m : r.end - length p ≡ 0 = omega arith in
    let t : take r.end (p ++ q) ≡ take r.end p =
      rw (take-append r.end p q, m) (append-nil (take r.end p)) in
    let t' : take r.start (p ++ q) ≡ take r.start p =
      rw (take-append r.start p q, n) (append-nil (take r.start p)) in
    let d : drop r.end (p ++ q) ≡ drop r.end p ++ q = rw (drop-append r.end p q, m) refl in
    let (runs₁, ran, joined) =
      replace_span-ok r runs proper (rw e (omega arith)) (rw (e, t) same) in
    let (runs₂, ran', joined') =
      apply_all-front rs (take r.start p) (r.value ++ (drop r.end p ++ q)) runs₁ fits
        (joined ∙ rw (e, t', d) refl) in
    (runs₂, rw ran ran', joined' ∙ simp (append_assoc))

-- one span on its own, and two spans that do not meet
unfoldable pub IsValid : Text → Replacement → Type 0
IsValid t r = (r.start < r.end) × (r.end ≤ length t) × (slice r.start r.end t ≡ r.raw_fragment)

unfoldable pub Apart : Replacement → Replacement → Type 0
Apart r s = (r.end ≤ s.start) ⊎ (s.end ≤ r.start)

unfoldable pub PairwiseApart : List Replacement → Type 0
PairwiseApart [] = Unit
PairwiseApart (r ∷ rs) = All (Apart r) rs × PairwiseApart rs

-- the slice below a cut does not see the cut
take-take : (m n : ℕ) (t : Text) → m ≤ n → take m (take n t) ≡ take m t
take-take zero n t h = refl
take-take (suc m) zero t h = absurd (omega arith)
take-take (suc m) (suc n) [] h = refl
take-take (suc m) (suc n) (c ∷ t) h = ap (λ r. c ∷ r) (take-take m n t (omega arith))

-- a valid span stays valid in the text cut off behind it
IsValid-take :
    (t : Text) (r : Replacement) (n : ℕ)
    → r.end ≤ n
    → n ≤ length t
    → IsValid t r
    → IsValid (take n t) r
unfolding IsValid
IsValid-take t r n h k (proper, within, same) =
    let l = length-take_le n t k in (proper, omega arith, rw (take-take r.end n t h) same)

insert-Fits :
    (r : Replacement) (rs : List Replacement) (t : Text)
    → IsValid t r
    → Fits t rs
    → All (Apart r) rs
    → Fits t (insert_by later_first r rs)
unfolding IsValid Fits Apart later_first
insert-Fits r [] t (proper, within, same) f a = (proper, within, same, tt)
insert-Fits r (s ∷ rs) t (proper, within, same) (sproper, swithin, ssame, fits) (a, others) =
    elim (Bool-cases (later_first r s)) [
      | inl e ↦
          let b : s.end ≤ r.start = elim a [ inl x ↦ absurd (ground arith) | inr x ↦ x ] in
          let (_, w, z) = IsValid-take t s r.start b (omega arith) (sproper, swithin, ssame) in
          rw e (
            proper,
            within,
            same,
            (
              sproper,
              w,
              z,
              subst (λ u. Fits u rs) (sym (take-take s.start r.start t (omega arith))) fits,
            ),
          )
      | inr e ↦
          let b : r.end ≤ s.start = elim a [ inl x ↦ x | inr x ↦ absurd (ground arith) ] in
          rw e (
            sproper,
            swithin,
            ssame,
            insert-Fits r rs (take s.start t)
                (IsValid-take t r s.start b (omega arith) (proper, within, same)) fits others,
          )
    ]

sort-Fits :
    (rs : List Replacement) (t : Text)
    → All (IsValid t) rs
    → PairwiseApart rs
    → Fits t (sort_by later_first rs)
unfolding Fits PairwiseApart
sort-Fits [] t v a = tt
sort-Fits (r ∷ rs) t (v, vs) (a, apart) =
    insert-Fits r (sort_by later_first rs) t v (sort-Fits rs t vs apart)
      (All-sort_by (Apart r) later_first rs a)

-- When every replacement's span is valid in the paragraph's text and no two of the spans overlap, all of them are
-- applied, whatever order they are listed in and however the text is cut into runs, and the joined runs are the
-- original text with each span replaced by its value (taken from the right, by the original positions).
pub apply_sorted-fill :
    (runs : List Text) (rs : List Replacement)
    → All (IsValid (concat runs)) rs
    → PairwiseApart rs
    → (runs' : List Text) × (apply_sorted runs rs ≡ ok runs')
      × (concat runs' ≡ fill (concat runs) (sort_by later_first rs))
unfolding apply_sorted
apply_sorted-fill runs rs v a =
    let n : concat runs ≡ concat runs ++ [] = sym (append-nil (concat runs)) in
    let (runs', ran, joined) =
      apply_all-front (sort_by later_first rs) (concat runs) [] runs
        (sort-Fits rs (concat runs) v a) n in
    (runs', ran, joined ∙ append-nil (fill (concat runs) (sort_by later_first rs)))
