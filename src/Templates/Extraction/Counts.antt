-- ===== src/Templates/Extraction/Counts.antt =====
-- The index of an extraction counts the placeholders of every key.
use mathlib.Core.Path.{subst}
use document_generation_anek.Prelude.{
  ℕ, suc, any, ◌||◌, ◌+◌, ◌≡◌, refl, ap, ◌∙◌, Bool, true, false, Option, none, some, List, [], ◌∷◌,
  count_by, if◌then◌else◌, arith,
}
use document_generation_anek.Text.{Text, text_eq, text_eq→eq}
use document_generation_anek.Json.{Dict, get, put}
use document_generation_anek.Json.Entries.{get-put, get-put_other}
use document_generation_anek.Import.Labels.{Unicode}
use document_generation_anek.Templates.Extraction.{
  VariableEntry, counted, entry_or_new, new_entry, add_variable, variable_index,
}

-- the abstract view of the index: how often each key was seen
abbrev occurrences_in : Option VariableEntry → ℕ
occurrences_in none = 0
occurrences_in (some entry) = entry.occurrences

abbrev pub count_in : Dict VariableEntry → Text → ℕ
count_in index key = occurrences_in (get key index)

-- one more of a key
abbrev one_more : Text → (Text → ℕ) → Text → ℕ
one_more key f k = (if text_eq key k then 1 else 0) + f k

entry-count :
    (u : Unicode) (key : Text) (o : Option VariableEntry)
    → (entry_or_new u key o).occurrences ≡ occurrences_in o
unfolding new_entry
entry-count u key none = refl
entry-count u key (some entry) = refl

-- a step of the extraction is a step of the counter
add_variable-count :
    (u : Unicode) (source key k : Text) (index : Dict VariableEntry)
    → count_in (add_variable u source key index) k ≡ one_more key (count_in index) k
unfolding add_variable
add_variable-count u source key k index = split (text_eq key k) refl
  where
    entry : VariableEntry
    entry = counted source (entry_or_new u key (get key index))

    split :
        (b : Bool)
        → text_eq key k ≡ b
        → count_in (put key entry index) k ≡ (if b then 1 else 0) + count_in index k
    split true e =
        let q : key ≡ k = text_eq→eq key k e in
        let own : count_in (put key entry index) key ≡ suc (count_in index key) =
          ap occurrences_in (get-put key entry index)
          ∙ ap suc (entry-count u key (get key index)) in
        subst (λ t. count_in (put key entry index) t ≡ 1 + count_in index t) q (omega (arith, own))
    split false e =
        let other : count_in (put key entry index) k ≡ count_in index k =
          ap occurrences_in (get-put_other key k entry index e) in
        omega (arith, other)

variable_index-count :
    (u : Unicode) (found : List (Text × Text)) (index : Dict VariableEntry) (k : Text)
    → count_in (variable_index u found index) k
      ≡ count_by (λ m. text_eq m.1 k) found + count_in index k
unfolding variable_index
variable_index-count u [] index k = omega arith
variable_index-count u ((source, key) ∷ found) index k =
    variable_index-count u found (add_variable u source key index) k
    ∙ (ap (λ n. count_by (λ m. text_eq m.1 k) found + n) (add_variable-count u source key k index)
        ∙ omega arith)

-- where the list has no match of a key, the index has for it what it had
abbrev pub AddsNone : Unicode → List (Text × Text) → Dict VariableEntry → Text → Bool → Type 0
AddsNone u found index k true = Unit {0}
AddsNone u found index k false = get k (variable_index u found index) ≡ get k index

variable_index-AddsNone :
    (u : Unicode) (found : List (Text × Text)) (index : Dict VariableEntry) (k : Text)
    → AddsNone u found index k (any (λ m. text_eq m.1 k) found)
unfolding variable_index
variable_index-AddsNone u [] index k = refl
variable_index-AddsNone u ((source, key) ∷ found) index k =
    split (variable_index-AddsNone u found (add_variable u source key index) k) (text_eq key k) refl
  where
    later :
        (b : Bool)
        → text_eq key k ≡ false
        → AddsNone u found (add_variable u source key index) k b
        → AddsNone u ((source, key) ∷ found) index k b
    later true e h = tt
    later false e h = h ∙ unfold add_variable in get-put_other key k _ index e

    split :
        AddsNone u found (add_variable u source key index) k (any (λ m. text_eq m.1 k) found)
        → (b : Bool) → text_eq key k ≡ b
        → AddsNone u ((source, key) ∷ found) index k (b || any (λ m. text_eq m.1 k) found)
    split ih true e = tt
    split ih false e = later (any (λ m. text_eq m.1 k) found) e ih

-- The index that `extract_schema` accumulates implements a counter: after any sequence of matches, each in some part of the
-- package, a key has the occurrences that it had before and one for each match of it. Where none of the matches has a
-- key, its entry is what it was; so no entry is added for it.
pub variable_index-count_in :
    (u : Unicode) (found : List (Text × Text)) (index : Dict VariableEntry) (k : Text)
    → (count_in (variable_index u found index) k
        ≡ count_by (λ m. text_eq m.1 k) found + count_in index k)
      × AddsNone u found index k (any (λ m. text_eq m.1 k) found)
variable_index-count_in u found index k =
    (variable_index-count u found index k, variable_index-AddsNone u found index k)
