-- ===== src/Templates/Versions.antt =====
-- A template has one current version at most, and the newest that was added is it.
use document_generation_anek.Prelude.{
  ℕ, suc, ◌≤◌, ◌≡◌, refl, ◌∙◌, Bool, true, false, some, List, [], ◌∷◌, ◌++◌, count_by,
  count_by-append, select, update, Bool-cases, inl, inr, ◌==◌, ==→eq, ==-self, if◌then◌else◌, arith,
}
use document_generation_anek.Models.{TemplateVersion}
use document_generation_anek.Result.{ok}
use document_generation_anek.Database.{Db}
use document_generation_anek.Templates.{
  is_current_of, not_current, add_current_version, get_current_for_template, scalar_one_or_none,
}

-- what the lookups of a current version rely on
abbrev pub AtMostOneCurrent : Db → Type 0
AtMostOneCurrent db = (template_id : ℕ) → count_by (is_current_of template_id) db.versions ≤ 1

unset_own :
    (t : ℕ) (vs : List TemplateVersion)
    → count_by (is_current_of t) (update (λ v. v.template_id == t) not_current vs) ≡ 0
unset_own t [] = refl
unset_own t (v ∷ vs) = ground (arith, unset_own t vs)

unset_other :
    (t u : ℕ) (vs : List TemplateVersion)
    → (t == u) ≡ false
    → count_by (is_current_of u) (update (λ v. v.template_id == t) not_current vs)
      ≡ count_by (is_current_of u) vs
unset_other t u [] h = refl
unset_other t u (v ∷ vs) h = ground (arith, unset_other t u vs)

none_selected : {A : Type 0} (p : A → Bool) (xs : List A) → count_by p xs ≡ 0 → select p xs ≡ []
none_selected p [] h = refl
none_selected p (x ∷ xs) h = ground (arith, none_selected p xs)

pub select-append :
    {A : Type 0} (p : A → Bool) (xs ys : List A) → select p (xs ++ ys) ≡ select p xs ++ select p ys
select-append p [] ys = refl
select-append p (x ∷ xs) ys = ground (arith, select-append p xs ys)

module _ (t : ℕ) (make : ℕ → TemplateVersion) (db : Db) (own : (make db.next_id).template_id ≡ t)
    (current : (make db.next_id).is_current ≡ true) where
  abbrev after : Db
  after = record db {
    next_id = suc db.next_id;
    versions = update (λ v. v.template_id == t) not_current db.versions ++ make db.next_id ∷ [];
  }

  added : add_current_version t make db ≡ ok (make db.next_id, after)
  unfolding add_current_version
  added = refl

  new_is_current : (u : ℕ) → is_current_of u (make db.next_id) ≡ (t == u)
  new_is_current u = rw own (rw current (ground arith))

  after_count :
      (u : ℕ)
      → count_by (is_current_of u) after.versions
        ≡ (if t == u then 1 else count_by (is_current_of u) db.versions)
  after_count u =
      count_by-append (is_current_of u) (update (λ v. v.template_id == t) not_current db.versions)
        (make db.next_id ∷ [])
      ∙ rw (new_is_current u) (elim (Bool-cases (t == u)) [
        | inl e ↦
            let q : t ≡ u = ==→eq t u e in rw e (rw (← q) (omega (arith, unset_own t db.versions)))
        | inr e ↦ rw e (omega (arith, unset_other t u db.versions e))
      ])

-- Adding a current version of a template returns it, keeps every template at one current version at most, and from
-- then on the lookup of the template's current version returns the new one.
pub add_current_version-AtMostOneCurrent :
    (t : ℕ) (make : ℕ → TemplateVersion) (db : Db)
    → (make db.next_id).template_id ≡ t
    → (make db.next_id).is_current ≡ true
    → AtMostOneCurrent db
    → (db' : Db) × (add_current_version t make db ≡ ok (make db.next_id, db'))
      × (get_current_for_template t db' ≡ ok (some (make db.next_id), db'))
      × AtMostOneCurrent db'
unfolding get_current_for_template scalar_one_or_none
add_current_version-AtMostOneCurrent t make db own current single =
    let unset = update (λ v. v.template_id == t) not_current db.versions in
    let one : select (is_current_of t) (unset ++ make db.next_id ∷ []) ≡ make db.next_id ∷ [] =
      select-append (is_current_of t) unset (make db.next_id ∷ [])
      ∙ rw (none_selected (is_current_of t) unset (unset_own t db.versions))
          (rw (new_is_current t make db own current t) (rw (==-self t) refl)) in
    (
      after t make db own current,
      added t make db own current,
      rw one refl,
      λ u. let c = after_count t make db own current u in let s = single u in ground arith,
    )
