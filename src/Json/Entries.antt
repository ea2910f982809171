-- ===== src/Json/Entries.antt =====
-- What a lookup returns after a write, and what holds of every entry of a dict, and of what a lookup returns.
use mathlib.Core.Path.{subst}
use document_generation_anek.Prelude.{
  ◌≡◌, refl, sym, Bool, true, false, Bool-cases, inl, inr, some, [], ◌∷◌, All, if◌then◌else◌,
}
use document_generation_anek.Text.{Text, text_eq, text_eq→eq, text_eq_self}
use document_generation_anek.Json.{Dict, get, put}

module _ {V : Type 0} (Q : Text → V → Type 0) where
  abbrev pub Entries : Dict V → Type 0
  Entries d = All (λ e. Q e.0 e.1) d

  pub put-Entries : (k : Text) (v : V) (d : Dict V) → Q k v → Entries d → Entries (put k v d)
  put-Entries k v [] q h = (q, tt)
  put-Entries k v ((j, w) ∷ d) q h = place (text_eq j k) refl (put-Entries k v d q h.1)
    where
      place :
          (b : Bool)
          → text_eq j k ≡ b
          → Entries (put k v d)
          → Entries (if b then (j, v) ∷ d else (j, w) ∷ put k v d)
      place true e rec = (subst (λ i. Q i v) (sym (text_eq→eq j k e)) q, h.1)
      place false e rec = (h.0, rec)

  pub get-Entries : (k : Text) (v : V) (d : Dict V) → get k d ≡ some v → Entries d → Q k v
  get-Entries k v [] e h = absurd (cc)
  get-Entries k v ((j, w) ∷ d) e h = place (text_eq j k) refl e (λ f. get-Entries k v d f h.1)
    where
      place :
          (b : Bool)
          → text_eq j k ≡ b
          → (if b then some w else get k d) ≡ some v
          → (get k d ≡ some v → Q k v)
          → Q k v
      place true s f rec =
          let p : j ≡ k = text_eq→eq j k s in
          let q : w ≡ v = cc in subst (λ i. Q i v) p (subst (λ x. Q j x) q h.0)
      place false s f rec = rec f

-- what a write leaves for the reads
pub get-put : {V : Type 0} (k : Text) (v : V) (d : Dict V) → get k (put k v d) ≡ some v
get-put k v [] = rw (text_eq_self k) refl
get-put k v ((j, w) ∷ d) = elim (Bool-cases (text_eq j k)) [
  | inl e ↦ rw e (rw e refl)
  | inr e ↦ rw e (rw e (get-put k v d))
]

pub get-put_other :
    {V : Type 0} (j k : Text) (v : V) (d : Dict V)
    → text_eq j k ≡ false
    → get k (put j v d) ≡ get k d
get-put_other j k v [] h = rw h refl
get-put_other j k v ((i, w) ∷ d) h = elim (Bool-cases (text_eq i j)) [
  | inl e ↦
      let q : i ≡ j = text_eq→eq i j e in let n : text_eq i k ≡ false = rw q h in rw e (rw n refl)
  | inr e ↦ let ih = get-put_other j k v d h in rw e (rw ih refl)
]
