-- ===== src/StorageKeys/Separation.antt =====
-- Keys tell organizations, templates and jobs apart.
use mathlib.Core.Path.{subst}
use document_generation_anek.Prelude.{
  ℕ, ◌≡◌, refl, sym, ap, ◌∙◌, Bool, true, false, ◌||◌, List, [], ◌∷◌, ◌++◌, any, select, All,
  All-append, All-select, ◌==◌, if◌then◌else◌, arith,
}
use document_generation_anek.Result.{ok, unsafe_key, raise_if, raise_if-eq-ok, >>=-eq-ok}
use document_generation_anek.Text.{Text, text_eq, is_space, strip, replace_char}
use document_generation_anek.Text.Split.{split, join, push, Free, split-append, split-Free}
use document_generation_anek.StorageKeys.{
  is_slash, is_dots, clean_segment, clean_file_name, last, is_part, path_parts, posix_path,
  three_part_key,
}

-- a name that a cleaned segment may have
abbrev pub IsSafe : Text → Type 0
IsSafe s = Free b'/' s × (is_dots s ≡ false)

Free-any : (s : Text) → any is_slash s ≡ false → Free b'/' s
Free-any [] h = refl
Free-any (c ∷ s) h = ground (arith, Free-any s)

or-false : (a b : Bool) → (a || b) ≡ false → (a ≡ false) × (b ≡ false)
or-false true b h = cc
or-false false b h = (refl, h)

segment-IsSafe : (value s : Text) → clean_segment value ≡ ok s → IsSafe s
unfolding clean_segment
segment-IsSafe value s h =
    let t = strip is_slash (replace_char b'\\' b'/' (strip is_space value)) in
    let (_, guard, same) = >>=-eq-ok (raise_if (is_dots t || any is_slash t) unsafe_key) _ h in
    let (dots, slash) =
      or-false (is_dots t) (any is_slash t)
        (raise_if-eq-ok (is_dots t || any is_slash t) unsafe_key guard) in
    let q : t ≡ s = cc in subst IsSafe q (Free-any t slash, dots)

-- every part of a split is free of the separator
parts-Free : (c : ℕ) (s : Text) → All (Free c) (split c s)
parts-Free c [] = (refl, tt)
parts-Free c (x ∷ s) = go (x == c) refl (split c s) (parts-Free c s)
  where
    go :
        (b : Bool)
        → (x == c) ≡ b
        → (parts : List Text) → All (Free c) parts
        → All (Free c) (if b then [] ∷ parts else push x parts)
    go true e parts h = (refl, h)
    go false e [] h = (rw e refl, tt)
    go false e (part ∷ parts) h = (rw e h.0, h.1)

last-Free : (c : ℕ) (parts : List Text) → All (Free c) parts → Free c (last parts)
last-Free c [] h = refl
last-Free c (part ∷ []) h = h.0
last-Free c (part ∷ next ∷ parts) h = last-Free c (next ∷ parts) h.1

file_name-IsSafe : (value s : Text) → clean_file_name value ≡ ok s → IsSafe s
unfolding clean_file_name
file_name-IsSafe value s h =
    let parts = split b'/' (replace_char b'\\' b'/' (strip is_space value)) in
    let (_, guard, same) = >>=-eq-ok (raise_if (is_dots (last parts)) unsafe_key) _ h in
    let q : last parts ≡ s = cc in
    subst IsSafe q (
      last-Free b'/' parts (parts-Free b'/' (replace_char b'\\' b'/' (strip is_space value))),
      raise_if-eq-ok (is_dots (last parts)) unsafe_key guard,
    )

-- a safe name is one part of a path
safe_part : (s : Text) → IsSafe s → path_parts s ≡ s ∷ []
safe_part s (free, dots) =
    let (a, b) =
      or-false (text_eq s [] || text_eq s (b'.' ∷ [])) (text_eq s (b'.' ∷ b'.' ∷ [])) dots in
    ap (λ parts. select is_part parts) (split-Free b'/' s free) ∙ rw a refl

-- splitting what was joined
split-join :
    (c : ℕ) (part : Text) (parts : List Text)
    → All (Free c) (part ∷ parts)
    → split c (join c (part ∷ parts)) ≡ part ∷ parts
split-join c part [] h = split-Free c part h.0
split-join c part (next ∷ parts) h =
    split-append c part (join c (next ∷ parts))
    ∙ rw (split-Free c part h.0, split-join c next parts h.1) refl

split-join_ends :
    (c : ℕ) (front : List Text) (part : Text) (parts : List Text)
    → All (Free c) (front ++ part ∷ parts)
    → split c (join c (front ++ part ∷ parts)) ≡ front ++ part ∷ parts
split-join_ends c [] part parts h = split-join c part parts h
split-join_ends c (x ∷ front) part parts h = split-join c x (front ++ part ∷ parts) h

-- the cleaned names that a key is made of
named_parts :
    (prefix organization_code name file_name key : Text)
    → three_part_key prefix organization_code name file_name ≡ ok key
    → (o n f : Text) × (clean_segment organization_code ≡ ok o)
      × (clean_segment name ≡ ok n)
      × (clean_file_name file_name ≡ ok f)
      × (posix_path (prefix ∷ o ∷ n ∷ f ∷ []) ≡ key)
unfolding three_part_key
named_parts prefix organization_code name file_name key made =
    let (o, co, k₁) = >>=-eq-ok (clean_segment organization_code) _ made in
    let (n, cn, k₂) = >>=-eq-ok (clean_segment name) _ k₁ in
    let (f, cf, k₃) = >>=-eq-ok (clean_file_name file_name) _ k₂ in (o, n, f, co, cn, cf, cc)

posix_path-split :
    (prefix o n f : Text)
    → IsSafe o
    → IsSafe n
    → IsSafe f
    → split b'/' (posix_path (prefix ∷ o ∷ n ∷ f ∷ [])) ≡ path_parts prefix ++ o ∷ n ∷ f ∷ []
unfolding posix_path
posix_path-split prefix o n f so sn sf =
    rw (safe_part o so, safe_part n sn, safe_part f sf)
      (split-join_ends b'/' (path_parts prefix) o (n ∷ f ∷ []) (
        All-append (Free b'/') (path_parts prefix) (o ∷ n ∷ f ∷ [])
          (All-select (Free b'/') is_part (split b'/' prefix) (parts-Free b'/' prefix))
          (so.0, (sn.0, (sf.0, tt)))))

-- A key's parts, split at the slashes, are the parts of the prefix and then the cleaned organization, name and file name,
-- none of which is empty, `.` or `..`: no key leaves its prefix or its organization's folder.
pub three_part_key-split :
    (prefix organization_code name file_name key : Text)
    → three_part_key prefix organization_code name file_name ≡ ok key
    → (o n f : Text) × (clean_segment organization_code ≡ ok o)
      × (clean_segment name ≡ ok n)
      × (clean_file_name file_name ≡ ok f)
      × (split b'/' key ≡ path_parts prefix ++ o ∷ n ∷ f ∷ [])
      × ((is_dots o ≡ false) × (is_dots n ≡ false) × (is_dots f ≡ false))
three_part_key-split prefix organization_code name file_name key made =
    let (o, n, f, co, cn, cf, path) =
      named_parts prefix organization_code name file_name key made in
    let so = segment-IsSafe organization_code o co in
    let sn = segment-IsSafe name n cn in
    let sf = file_name-IsSafe file_name f cf in
    (
      o,
      n,
      f,
      co,
      cn,
      cf,
      ap (split b'/') (sym path) ∙ posix_path-split prefix o n f so sn sf,
      (so.1, sn.1, sf.1),
    )

append_cancel : (front s t : List Text) → front ++ s ≡ front ++ t → s ≡ t
append_cancel [] s t h = h
append_cancel (x ∷ front) s t h = append_cancel front s t (cc)

-- Under one prefix, equal keys come from equal cleaned names: two organizations whose codes clean to different segments
-- never share a key, and neither do two jobs or two files of one organization.
pub three_part_key-injective :
    (prefix organization_code name file_name organization_code' name' file_name' key : Text)
    → three_part_key prefix organization_code name file_name ≡ ok key
    → three_part_key prefix organization_code' name' file_name' ≡ ok key
    → (clean_segment organization_code ≡ clean_segment organization_code')
      × (clean_segment name ≡ clean_segment name')
      × (clean_file_name file_name ≡ clean_file_name file_name')
three_part_key-injective prefix organization_code name file_name organization_code' name' file_name'
      key made made' =
    let (o, n, f, co, cn, cf, s, _) =
      three_part_key-split prefix organization_code name file_name key made in
    let (o', n', f', co', cn', cf', s', _) =
      three_part_key-split prefix organization_code' name' file_name' key made' in
    let e : o ∷ n ∷ f ∷ [] ≡ o' ∷ n' ∷ f' ∷ [] =
      append_cancel (path_parts prefix) (o ∷ n ∷ f ∷ []) (o' ∷ n' ∷ f' ∷ []) (sym s ∙ s') in
    let eo : o ≡ o' = cc in let en : n ≡ n' = cc in let ef : f ≡ f' = cc in (cc, cc, cc)
