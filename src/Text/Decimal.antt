-- ===== src/Text/Decimal.antt =====
-- `str(n)` and `int(s)`. Of the digits that `int` takes, the ASCII ones are modelled.
use Prim.Native.Nat.{◌/◌, ◌%◌}
use document_generation_anek.Prelude.{
  ℕ, zero, suc, ◌+◌, ◌-◌, ◌*◌, ◌≤◌, ◌<◌, ◌≡◌, refl, ap, ◌∙◌, Bool, Bool-cases, inl, inr, Option,
  none, some, [], ◌∷◌, true, false, ◌&&◌, ◌==◌, leb, if◌then◌else◌, arith, All,
}
use document_generation_anek.Prelude.Int.{ℤ, pos, neg}
use mathlib.Core.List.{reverse, reverse_aux, reverse-reverse}
use document_generation_anek.Text.{Text, is_space, lstrip, strip}

-- the decimal digits of `n` in front of `out`; each round divides by ten, so `n` rounds are enough
abbrev pub emit : ℕ → ℕ → Text → Text
emit zero n out = out
emit (suc fuel) n out =
    let rest = emit fuel (n / 10) ((48 + n % 10) ∷ out) in if n == 0 then out else rest

-- `str(n)`
unfoldable pub str_int : ℕ → Text
str_int n = if n == 0 then 48 ∷ [] else emit n n []

-- digits with single underscores between them; `digit_before` says whether the last character was one
abbrev pub scan : ℕ → Bool → Text → Option ℕ
scan n digit_before [] = if digit_before then some n else none
scan n digit_before (c ∷ s) =
    let digit = scan (n * 10 + (c - 48)) true s in
    let underscore = scan n false s in
    if leb 48 c && leb c 57 then digit else if c == 95 && digit_before then underscore else none

abbrev pub with_sign : (ℕ → ℤ) → Option ℕ → Option ℤ
with_sign f none = none
with_sign f (some n) = some (f n)

unfoldable pub signed : Text → Option ℤ
signed [] = none
signed (c ∷ s) =
    if c == 45
    then with_sign neg (scan 0 false s)
    else if c == 43
    then with_sign pos (scan 0 false s)
    else with_sign pos (scan 0 false (c ∷ s))

-- `int(s)`, `none` for its ValueError
unfoldable pub int_of : Text → Option ℤ
unfolding signed
int_of s = signed (strip is_space s)

abbrev pub IsDigit : ℕ → Type 0
IsDigit c = (48 ≤ c) × (c ≤ 57)

emit-IsDigit : (fuel n : ℕ) (out : Text) → All IsDigit out → All IsDigit (emit fuel n out)
emit-IsDigit zero n out h = h
emit-IsDigit (suc fuel) n out h =
    let rest = emit-IsDigit fuel (n / 10) ((48 + n % 10) ∷ out) ((omega arith, omega arith), h) in
    elim (Bool-cases (n == 0)) [ inl e ↦ rw e h | inr e ↦ rw e rest ]

pub str_int-IsDigit : (n : ℕ) → All IsDigit (str_int n)
unfolding str_int
str_int-IsDigit n = elim (Bool-cases (n == 0)) [
  | inl e ↦ rw e ((omega arith, omega arith), tt)
  | inr e ↦ rw e (emit-IsDigit n n [] tt)
]

scan_digit :
    (n c : ℕ) (b : Bool) (s : Text) → IsDigit c → scan n b (c ∷ s) ≡ scan (n * 10 + (c - 48)) true s
scan_digit n c b s h = ground arith

emit-zero : (fuel : ℕ) (out : Text) → emit fuel 0 out ≡ out
emit-zero zero out = refl
emit-zero (suc fuel) out = refl

scan-emit :
    (fuel n : ℕ) (b : Bool) (out : Text)
    → 0 < n
    → n ≤ fuel
    → scan 0 b (emit fuel n out) ≡ scan n true out
scan-emit zero n b out h k = absurd (omega arith)
scan-emit (suc fuel) n b out h k =
    let e : (n == 0) ≡ false = ground arith in
    let last : n / 10 * 10 + (48 + n % 10 - 48) ≡ n = omega arith in
    rw e (elim (Bool-cases (n / 10 == 0)) [
      | inl z ↦
          let q : n / 10 ≡ 0 = ground arith in
          let m : 0 * 10 + (48 + n % 10 - 48) ≡ n = omega arith in
          rw (q, emit-zero fuel ((48 + n % 10) ∷ out))
            (scan_digit 0 (48 + n % 10) b out (omega arith, omega arith)
              ∙ ap (λ k. scan k true out) m)
      | inr z ↦
          scan-emit fuel (n / 10) b ((48 + n % 10) ∷ out) (ground arith) (omega arith)
          ∙ scan_digit (n / 10) (48 + n % 10) true out (omega arith, omega arith)
          ∙ ap (λ m. scan m true out) last
    ])

lstrip-digits : (s : Text) → All IsDigit s → lstrip is_space s ≡ s
lstrip-digits [] h = refl
lstrip-digits (c ∷ s) h = ground arith

All-reverse_aux : (s t : Text) → All IsDigit s → All IsDigit t → All IsDigit (reverse_aux s t)
All-reverse_aux [] t h k = k
All-reverse_aux (c ∷ s) t h k = All-reverse_aux s (c ∷ t) h.1 (h.0, k)

strip-digits : (s : Text) → All IsDigit s → strip is_space s ≡ s
strip-digits s h =
    rw (lstrip-digits s h, lstrip-digits (reverse s) (All-reverse_aux s [] h tt))
      (reverse-reverse s)

signed-digits : (s : Text) → All IsDigit s → signed s ≡ with_sign pos (scan 0 false s)
unfolding signed
signed-digits [] h = refl
signed-digits (c ∷ s) ((low, high), h) =
    let a : (c == 45) ≡ false = ground arith in
    let b : (c == 43) ≡ false = ground arith in rw (a, b) refl

-- Every index is read back from its decimal print.
pub int_of-str_int : (n : ℕ) → int_of (str_int n) ≡ some (pos n)
unfolding int_of
int_of-str_int n =
    let d = str_int-IsDigit n in
    rw (strip-digits (str_int n) d, signed-digits (str_int n) d)
      (elim (Bool-cases (n == 0)) [
        | inl e ↦ unfold str_int in (let z : n ≡ 0 = ground arith in rw (e, z) refl)
        | inr e ↦ unfold str_int in rw (e, scan-emit n n false [] (ground arith) (omega arith)) refl
      ])
