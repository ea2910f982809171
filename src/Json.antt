-- ===== src/Json.antt =====
-- JSON values, as the payload columns and the request bodies hold them. A number is carried as the text
-- that Python prints for it, since no modelled operation computes with one.
pub mod Entries
use document_generation_anek.Text.{Text, text_eq}
use document_generation_anek.Prelude.{
  Bool, true, false, Option, none, some, List, [], ◌∷◌, if◌then◌else◌,
}

mutual
  pub data Value : Type 0 where
    null : Value
    str num : Text → Value
    bool : Bool → Value
    obj : Fields → Value
    arr : Items → Value

  -- the members of an object, in their order, and the elements of an array
  pub data Fields : Type 0 where
    no_fields : Fields
    field : Text → Value → Fields → Fields

  pub data Items : Type 0 where
    no_items : Items
    item : Value → Items → Items

-- a Python dict with text keys, in insertion order
abbrev pub Dict {ℓ} : Type ℓ → Type ℓ
Dict V = List (Text × V)

module _ {ℓ} {V : Type ℓ} where
  -- `d.get(k)`
  abbrev pub get : Text → Dict V → Option V
  get k [] = none
  get k ((j, v) ∷ d) = if text_eq j k then some v else get k d

  -- `d[k] = v`
  abbrev pub put : Text → V → Dict V → Dict V
  put k v [] = (k, v) ∷ []
  put k v ((j, w) ∷ d) = if text_eq j k then (j, v) ∷ d else (j, w) ∷ put k v d

-- `value is None`
abbrev pub is_null : Value → Bool
is_null null = true
is_null _ = false

abbrev pub of_option : Option Text → Value
of_option none = null
of_option (some s) = str s
