-- ===== src/Rendering/Values.antt =====
-- What the prepared payload of an imported template holds.
use Prim.Native.String.{String}
use mathlib.Core.Path.{subst}
use document_generation_anek.Text.{Text, text_eq, text_eq→eq}
use document_generation_anek.Prelude.{
  ◌≡◌, refl, ap, ◌∙◌, Bool, true, false, Bool-cases, inl, inr, Option, none, some, List, [], ◌∷◌,
  All, All-weaken,
}
use document_generation_anek.Schema.{ImportBinding}
use document_generation_anek.Json.{Value, null, str, num, bool, obj, arr, Dict, get, put}
use document_generation_anek.Json.Entries.{get-put, get-put_other}
use document_generation_anek.Result.{Result, ok, err, validation, ◌>>=◌, >>=-eq-ok, raise_if}
use document_generation_anek.Rendering.Payload.{
  bool_text, missing_value, binding_value, normalize_bindings, no_bindings, prepare_payload,
}

-- the values that one pass reads
normalize-get :
    (bindings : List ImportBinding) (values values' : Dict Value) (n : Dict (Option Text))
    → All (λ b. get b.binding_key values ≡ get b.binding_key values') bindings
    → normalize_bindings bindings values n ≡ normalize_bindings bindings values' n
unfolding normalize_bindings
normalize-get [] values values' n h = refl
normalize-get (b ∷ bindings) values values' n (e, h) = rw e (
    next (binding_value b.required (get b.binding_key values'))
      λ v. normalize-get bindings values values' (put b.binding_key v n) h)
  where
    next :
        (r : Result (Option Text))
        → ((v : Option Text)
            → normalize_bindings bindings values (put b.binding_key v n)
              ≡ normalize_bindings bindings values' (put b.binding_key v n))
        → (r >>= λ v. normalize_bindings bindings values (put b.binding_key v n))
          ≡ (r >>= λ v. normalize_bindings bindings values' (put b.binding_key v n))
    next (ok v) f = f v
    next (err x) f = refl

-- The prepared values and the cache key depend only on what the request gives for the keys of the confirmed bindings:
-- two requests that agree on those keys have the same result, errors included, whatever else they carry.
pub prepare_payload-get :
    (digest : String → String → Dict (Option Text) → String)
    (render_strategy template_version_id : String) (bindings : List ImportBinding)
    (values values' : Dict Value)
    → All (λ b. get b.binding_key values ≡ get b.binding_key values') bindings
    → prepare_payload digest render_strategy template_version_id bindings values
      ≡ prepare_payload digest render_strategy template_version_id bindings values'
unfolding prepare_payload
prepare_payload-get digest render_strategy template_version_id bindings values values' h =
    rw (normalize-get bindings values values' [] h) refl

missing_unique :
    (r r' : Bool) (v v' : Option Text) → missing_value r ≡ ok v → missing_value r' ≡ ok v' → v ≡ v'
missing_unique true r' v v' h h' = absurd (cc)
missing_unique false true v v' h h' = absurd (cc)
missing_unique false false v v' h h' = cc

value_unique :
    (r r' : Bool) (x : Option Value) (v v' : Option Text)
    → binding_value r x ≡ ok v
    → binding_value r' x ≡ ok v'
    → v ≡ v'
unfolding binding_value
value_unique r r' none v v' h h' = missing_unique r r' v v' h h'
value_unique r r' (some null) v v' h h' = missing_unique r r' v v' h h'
value_unique r r' (some (obj m)) v v' h h' = absurd (cc)
value_unique r r' (some (arr m)) v v' h h' = absurd (cc)
value_unique r r' (some (str s)) v v' h h' = cc
value_unique r r' (some (num s)) v v' h h' = cc
value_unique r r' (some (bool b)) v v' h h' = cc

-- a stored value stays: a later binding of the same key has the same value
normalize-keeps :
    (bindings : List ImportBinding) (values : Dict Value) (n n' : Dict (Option Text)) (k : Text)
    (r : Bool) (v : Option Text)
    → normalize_bindings bindings values n ≡ ok n'
    → binding_value r (get k values) ≡ ok v
    → get k n ≡ some v
    → get k n' ≡ some v
unfolding normalize_bindings
normalize-keeps [] values n n' k r v h e g = let q : n ≡ n' = cc in rw (← q) g
normalize-keeps (b ∷ bindings) values n n' k r v h e g =
    let (w, bw, rest) = >>=-eq-ok (binding_value b.required (get b.binding_key values)) _ h in
    normalize-keeps bindings values (put b.binding_key w n) n' k r v rest e
      (elim (Bool-cases (text_eq b.binding_key k)) [
        | inl s ↦
            let q : b.binding_key ≡ k = text_eq→eq b.binding_key k s in
            let bw' : binding_value b.required (get k values) ≡ ok w = rw (← q) bw in
            let u : w ≡ v = value_unique b.required r (get k values) w v bw' e in
            rw q (get-put k w n ∙ ap some u)
        | inr s ↦ get-put_other b.binding_key k w n s ∙ g
      ])

normalize-holds :
    (bindings : List ImportBinding) (values : Dict Value) (n n' : Dict (Option Text))
    → normalize_bindings bindings values n ≡ ok n'
    → All
        (λ b.
          (v : Option Text) × (binding_value b.required (get b.binding_key values) ≡ ok v)
          × (get b.binding_key n' ≡ some v))
        bindings
unfolding normalize_bindings
normalize-holds [] values n n' h = tt
normalize-holds (b ∷ bindings) values n n' h =
    let (w, bw, rest) = >>=-eq-ok (binding_value b.required (get b.binding_key values)) _ h in
    (
      (
        w,
        bw,
        normalize-keeps bindings values (put b.binding_key w n) n' b.binding_key b.required w rest
            bw (get-put b.binding_key w n),
      ),
      normalize-holds bindings values (put b.binding_key w n) n' rest,
    )

-- what a confirmed binding is given: a required one a scalar, whose text is stored; an optional one may be absent or null
abbrev pub IsGiven : Bool → Option Value → Option Text → Type 0
IsGiven required none v = (required ≡ false) × (v ≡ none)
IsGiven required (some null) v = (required ≡ false) × (v ≡ none)
IsGiven required (some (str s)) v = v ≡ some s
IsGiven required (some (num s)) v = v ≡ some s
IsGiven required (some (bool b)) v = v ≡ some (bool_text b)
IsGiven required (some (obj m)) v = ⊥
IsGiven required (some (arr m)) v = ⊥

missing-IsGiven : (r : Bool) (v : Option Text) → missing_value r ≡ ok v → (r ≡ false) × (v ≡ none)
missing-IsGiven true v h = absurd (cc)
missing-IsGiven false v h = (refl, cc)

binding_value-IsGiven :
    (r : Bool) (x : Option Value) (v : Option Text) → binding_value r x ≡ ok v → IsGiven r x v
unfolding binding_value
binding_value-IsGiven r none v h = missing-IsGiven r v h
binding_value-IsGiven r (some null) v h = missing-IsGiven r v h
binding_value-IsGiven r (some (str s)) v h = cc
binding_value-IsGiven r (some (num s)) v h = cc
binding_value-IsGiven r (some (bool b)) v h = cc
binding_value-IsGiven r (some (obj m)) v h = absurd (cc)
binding_value-IsGiven r (some (arr m)) v h = absurd (cc)

-- A payload that is accepted holds, for every confirmed binding, the text of the request's scalar value, or null where
-- the request has none and the binding is optional; so every required key was given.
pub prepare_payload-values :
    (digest : String → String → Dict (Option Text) → String)
    (render_strategy template_version_id key : String) (bindings : List ImportBinding)
    (values : Dict Value) (normalized : Dict (Option Text))
    → prepare_payload digest render_strategy template_version_id bindings values
      ≡ ok (normalized, key)
    → All
        (λ b.
          (v : Option Text) × IsGiven b.required (get b.binding_key values) v
          × (get b.binding_key normalized ≡ some v))
        bindings
unfolding prepare_payload
prepare_payload-values digest render_strategy template_version_id key bindings values normalized h =
    let (_, _, k) = >>=-eq-ok (raise_if (no_bindings bindings) validation) _ h in
    let (n, e, same) = >>=-eq-ok (normalize_bindings bindings values []) _ k in
    let q : n ≡ normalized = cc in
    subst
      (λ d.
        All
          (λ b.
            (v : Option Text) × IsGiven b.required (get b.binding_key values) v
            × (get b.binding_key d ≡ some v))
          bindings)
      q
      (All-weaken _ _ bindings
        (λ b (v, given, stored). (v, binding_value-IsGiven b.required _ v given, stored))
        (normalize-holds bindings values [] n e))
