-- ===== src/Rendering/Spans.antt =====
-- One replacement: the runs of the paragraph, joined, hold the value in place of the span.
use document_generation_anek.Prelude.{
  ℕ, ◌+◌, ◌-◌, ◌≤◌, ◌<◌, ◌≡◌, refl, sym, ap, ◌∙◌, inl, inr, Bool, true, false, ◌||◌, List, [], ◌∷◌,
  ◌++◌, arith, take, drop, length, length-append, drop-append, take-append, drop-all, take-all, leb,
  ltb, Bool-cases, if◌then◌else◌,
}
use mathlib.Core.List.{append_assoc, append-nil}
use document_generation_anek.Result.{ok, err, validation}
use document_generation_anek.Text.{Text, text_eq, text_eq_self, text_eq→eq, slice, concat}
use document_generation_anek.Rendering.{Replacement, run_text, overlaps, replace_runs, replace_span}

module _ (r : Replacement) (proper : r.start < r.end) where
  -- the part of a run behind the span
  tail_part :
      (c : ℕ) (text : Text)
      → c ≤ r.end
      → (if ltb r.end (c + length text) then drop (r.end - c) text else []) ≡ drop (r.end - c) text
  tail_part c text h = elim (Bool-cases (ltb r.end (c + length text))) [
    | inl e ↦ rw e refl
    | inr e ↦ rw e (sym (drop-all (r.end - c) text (ground arith)))
  ]

  -- a run behind the value, whether the span reaches into it or not
  behind_hit :
      (c : ℕ) (text : Text)
      → r.start < c
      → overlaps r c text ≡ true
      → run_text r true c text ≡ drop (r.end - c) text
  unfolding overlaps run_text
  behind_hit c text h o =
      let s : ltb c r.start ≡ false = ground arith in rw s (tail_part c text (ground arith))

  behind_missed :
      (c : ℕ) (text : Text) → r.start < c → overlaps r c text ≡ false → text ≡ drop (r.end - c) text
  unfolding overlaps
  behind_missed c text h o = let z : r.end - c ≡ 0 = ground arith in rw z refl

  -- the run in which the span begins, and a run in front of it
  first_hit :
      (c : ℕ) (text : Text)
      → c ≤ r.start
      → overlaps r c text ≡ true
      → run_text r false c text ≡ take (r.start - c) text ++ (r.value ++ drop (r.end - c) text)
  unfolding overlaps run_text
  first_hit c text h o = elim (Bool-cases (ltb c r.start)) [
    | inl e ↦ rw (e, tail_part c text (omega arith)) refl
    | inr e ↦
        let z : r.start - c ≡ 0 = ground arith in rw (e, z, tail_part c text (omega arith)) refl
  ]

  first_end : (c : ℕ) (text : Text) → overlaps r c text ≡ true → r.start < c + length text
  unfolding overlaps
  first_end c text o = ground arith

  missed_end :
      (c : ℕ) (text : Text) → c ≤ r.start → overlaps r c text ≡ false → c + length text ≤ r.start
  unfolding overlaps
  missed_end c text h o = ground arith

  -- the two ways of the loop over one run
  run_hit :
      (b : Bool) (c : ℕ) (text : Text) (runs : List Text)
      → overlaps r c text ≡ true
      → replace_runs r b c (text ∷ runs) ≡ (
        run_text r b c text ∷ (replace_runs r true (c + length text) runs).0,
        (replace_runs r true (c + length text) runs).1,
      )
  unfolding replace_runs
  run_hit b c text runs e = rw e refl

  run_missed :
      (b : Bool) (c : ℕ) (text : Text) (runs : List Text)
      → overlaps r c text ≡ false
      → replace_runs r b c (text ∷ runs) ≡ (
        text ∷ (replace_runs r b (c + length text) runs).0,
        (replace_runs r b (c + length text) runs).1,
      )
  unfolding replace_runs
  run_missed b c text runs e = rw e refl

  -- after the value, only what lies behind the span is kept
  rest_of_runs :
      (c : ℕ) (runs : List Text)
      → r.start < c
      → (concat (replace_runs r true c runs).0 ≡ drop (r.end - c) (concat runs))
        × ((replace_runs r true c runs).1 ≡ true)
  rest_of_runs c [] h = unfold replace_runs in (sym (drop-all (r.end - c) [] (omega arith)), refl)
  rest_of_runs c (text ∷ runs) h =
      let (ih, done) = rest_of_runs (c + length text) runs (omega arith) in
      let m : r.end - c - length text ≡ r.end - (c + length text) = omega arith in
      let d = drop-append (r.end - c) text (concat runs) in
      elim (Bool-cases (overlaps r c text)) [
        | inl e ↦
            rw (run_hit true c text runs e, ih, done) (rw (behind_hit c text h e, d, m) refl, refl)
        | inr e ↦
            rw (run_missed true c text runs e, ih, done)
              (
                rw (d, m)
                    (ap (λ t. t ++ drop (r.end - (c + length text)) (concat runs))
                      (behind_missed c text h e)),
                refl,
              )
      ]

  -- before the value is inserted, the span lies ahead
  runs_before :
      (c : ℕ) (runs : List Text)
      → c ≤ r.start
      → r.end ≤ c + length (concat runs)
      → (concat (replace_runs r false c runs).0
          ≡ take (r.start - c) (concat runs) ++ (r.value ++ drop (r.end - c) (concat runs)))
        × ((replace_runs r false c runs).1 ≡ true)
  runs_before c [] h k = absurd (omega arith)
  runs_before c (text ∷ runs) h k =
      let l = length-append text (concat runs) in
      let d = drop-append (r.end - c) text (concat runs) in
      let t = take-append (r.start - c) text (concat runs) in
      let m : r.end - c - length text ≡ r.end - (c + length text) = omega arith in
      let n : r.start - c - length text ≡ r.start - (c + length text) = omega arith in
      elim (Bool-cases (overlaps r c text)) [
        | inl e ↦
            let (rest, done) = rest_of_runs (c + length text) runs (first_end c text e) in
            let b = first_end c text e in
            let z : r.start - (c + length text) ≡ 0 = omega arith in
            rw (run_hit false c text runs e, rest, done, first_hit c text h e, d, m, t, n, z)
              (simp (append_assoc, append-nil), refl)
        | inr e ↦
            let b = missed_end c text h e in
            let (rest, done) = runs_before (c + length text) runs b (omega (arith, l)) in
            rw
              (
                run_missed false c text runs e,
                rest,
                done,
                d,
                m,
                t,
                n,
                take-all (r.start - c) text (omega arith),
                drop-all (r.end - c) text (omega arith),
              )
              (simp (append_assoc), refl)
      ]

-- When the span is proper, lies within the paragraph's text and still reads as the stored raw fragment, the
-- replacement is accepted, and however the text is cut into runs, the joined runs hold the value exactly in
-- place of the span and all other text as it was.
pub replace_span-ok :
    (r : Replacement) (runs : List Text)
    → r.start < r.end
    → r.end ≤ length (concat runs)
    → slice r.start r.end (concat runs) ≡ r.raw_fragment
    → (runs' : List Text) × (replace_span runs r ≡ ok runs')
      × (concat runs' ≡ take r.start (concat runs) ++ (r.value ++ drop r.end (concat runs)))
unfolding replace_span
replace_span-ok r runs proper within same =
    let (joined, done) = runs_before r proper 0 runs (omega arith) (omega arith) in
    let a : (ltb (length (concat runs)) r.end || leb r.end r.start) ≡ false = ground arith in
    let b : text_eq (slice r.start r.end (concat runs)) r.raw_fragment ≡ true =
      rw same (text_eq_self r.raw_fragment) in
    let m : r.start - 0 ≡ r.start = omega arith in
    let n : r.end - 0 ≡ r.end = omega arith in
    ((replace_runs r false 0 runs).0, rw (a, b, done) refl, joined ∙ rw (m, n) refl)

-- A span that is empty, that reaches behind the paragraph's text, or that no longer reads as the stored raw
-- fragment is refused with a validation error.
pub replace_span-refused :
    (r : Replacement) (runs : List Text)
    → ¬ (
        (r.start < r.end)
        × (r.end ≤ length (concat runs))
        × (slice r.start r.end (concat runs) ≡ r.raw_fragment))
    → replace_span runs r ≡ err validation
unfolding replace_span
replace_span-refused r runs bad =
    elim (Bool-cases (ltb (length (concat runs)) r.end || leb r.end r.start)) [
      | inl a ↦ rw a refl
      | inr a ↦ elim (Bool-cases (text_eq (slice r.start r.end (concat runs)) r.raw_fragment)) [
        | inl b ↦ absurd (
            bad (
              ground arith,
              ground arith,
              text_eq→eq (slice r.start r.end (concat runs)) r.raw_fragment b,
            ))
        | inr b ↦ rw (a, b) refl
      ]
    ]
