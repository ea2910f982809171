-- ===== src/Rendering/Tests.antt =====
-- Examples of the replacement of spans.
use Prim.Native.String.{String}
use document_generation_anek.Prelude.{
  ◌≡◌, refl, inl, Bool, true, false, Option, none, some, List, [], ◌∷◌, ◌++◌, take, drop, All,
  sort_by, arith,
}
use document_generation_anek.Result.{ok, err, validation}
use document_generation_anek.Json.{Value, null, str, num, arr, no_items, Dict, get}
use document_generation_anek.Text.{Text, concat, codes}
use document_generation_anek.Schema.{ImportBinding}
use document_generation_anek.Rendering.{Replacement, replace_span, later_first, apply_sorted}
use document_generation_anek.Rendering.Payload.{prepare_payload}
use document_generation_anek.Rendering.Values.{IsGiven, prepare_payload-values}
use document_generation_anek.Rendering.Spans.{replace_span-ok}
use document_generation_anek.Rendering.Substitution.{
  fill, IsValid, Apart, PairwiseApart, apply_sorted-fill,
}

-- `__` in the runs `a_`, `_b`
abbrev runs : List Text
runs = (b'a' ∷ b'_' ∷ []) ∷ (b'_' ∷ b'b' ∷ []) ∷ []

abbrev blank : Replacement
blank = record { start = 1; end = 3; raw_fragment = b'_' ∷ b'_' ∷ []; value = b'x' ∷ [] }

abbrev front : Replacement
front = record { start = 0; end = 1; raw_fragment = b'a' ∷ []; value = b'y' ∷ b'z' ∷ [] }

replace_span-ok_example :
    (runs' : List Text) × (replace_span runs blank ≡ ok runs')
    × (concat runs' ≡ take 1 (concat runs) ++ ((b'x' ∷ []) ++ drop 3 (concat runs)))
replace_span-ok_example = replace_span-ok blank runs (omega arith) (omega arith) refl

valid : All (IsValid (concat runs)) (front ∷ blank ∷ [])
unfolding IsValid
valid = ((omega arith, omega arith, refl), ((omega arith, omega arith, refl), tt))

apart : PairwiseApart (front ∷ blank ∷ [])
unfolding PairwiseApart Apart
apart = ((inl (omega arith), tt), (tt, tt))

apply_sorted-fill_example :
    (runs' : List Text) × (apply_sorted runs (front ∷ blank ∷ []) ≡ ok runs')
    × (concat runs' ≡ fill (concat runs) (sort_by later_first (front ∷ blank ∷ [])))
apply_sorted-fill_example = apply_sorted-fill runs (front ∷ blank ∷ []) valid apart

filled :
    fill (concat runs) (sort_by later_first (front ∷ blank ∷ [])) ≡ b'y' ∷ b'z' ∷ b'x' ∷ b'b' ∷ []
unfolding fill later_first
filled = refl

abbrev binding : String → Bool → ImportBinding
binding key required = record {
  id = [];
  candidate_id = [];
  binding_key = codes key;
  label = [];
  raw_fragment = [];
  paragraph_path = [];
  value_type = "string";
  component_type = "text";
  required = required;
  sample_value = none;
  fragment_start = 0;
  fragment_end = 1;
}

abbrev bindings : List ImportBinding
bindings = binding "name" true ∷ binding "note" false ∷ []

abbrev request : Dict Value
request = (codes "name", str (codes "Ada")) ∷ (codes "extra", num (codes "1")) ∷ []

abbrev other_request : Dict Value
other_request = (codes "extra", null) ∷ (codes "name", str (codes "Ada")) ∷ []

abbrev normalized : Dict (Option Text)
normalized = (codes "name", some (codes "Ada")) ∷ (codes "note", none) ∷ []

abbrev digest : String → String → Dict (Option Text) → String
digest strategy version values = version

accepted : prepare_payload digest "docx" "v1" bindings request ≡ ok (normalized, "v1")
unfolding prepare_payload
accepted = refl

prepare_payload-values_example :
    All
      (λ b.
        (v : Option Text) × IsGiven b.required (get b.binding_key request) v
        × (get b.binding_key normalized ≡ some v))
      bindings
prepare_payload-values_example =
    prepare_payload-values digest "docx" "v1" "v1" bindings request normalized accepted

list_refused :
    prepare_payload digest "docx" "v1" bindings ((codes "name", arr no_items) ∷ []) ≡ err validation
unfolding prepare_payload
list_refused = refl

required_missing :
    prepare_payload digest "docx" "v1" bindings ((codes "note", str (codes "x")) ∷ [])
    ≡ err validation
unfolding prepare_payload
required_missing = refl
