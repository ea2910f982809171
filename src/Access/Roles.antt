-- ===== src/Access/Roles.antt =====
-- What an accepted request shows of the user's membership, and that the roles are ordered.
use mathlib.Core.Path.{subst}
use document_generation_anek.Prelude.{
  ℕ, ◌≡◌, refl, sym, ap, Bool, true, false, not, ◌&&◌, Option, none, some, List, [], ◌∷◌, find,
  find_sound, find-All, select, any, All, All-select_self, ◌==◌, ==→eq, arith,
}
use document_generation_anek.Models.{
  UserRole, admin, manager, operator, viewer, OrganizationMembership, User,
}
use document_generation_anek.Result.{
  ok, err, authorization, raise_if, >>=-eq-ok, or_raise, or_raise-eq-ok, raise_if-eq-ok,
}
use document_generation_anek.Access.{
  CurrentMembership, is_live, active_memberships, chosen, default_or_only, resolve_membership,
  can_read, can_write, can_generate, can_audit, require, require_template_read_access,
  require_template_write_access, require_generation_access, require_audit_access,
  require_job_read_access,
}

default_or_only-All :
    (P : OrganizationMembership → Type 0) (o : Option OrganizationMembership)
    (memberships : List OrganizationMembership) (m : OrganizationMembership)
    → ((x : OrganizationMembership) → o ≡ some x → P x)
    → All P memberships
    → default_or_only o memberships ≡ some m
    → P m
default_or_only-All P (some x) memberships m p h e = let q : x ≡ m = cc in p m (ap some q)
default_or_only-All P none [] m p h e = absurd (cc)
default_or_only-All P none (x ∷ []) m p h e = let q : x ≡ m = cc in subst P q h.0
default_or_only-All P none (x ∷ y ∷ memberships) m p h e = absurd (cc)

chosen-All :
    (P : OrganizationMembership → Type 0) (organization_id : Option ℕ)
    (memberships : List OrganizationMembership) (m : OrganizationMembership)
    → All P memberships
    → chosen organization_id memberships ≡ some m
    → P m
chosen-All P (some o) memberships m h e = find-All P (λ x. x.organization_id == o) memberships m e h
chosen-All P none memberships m h e =
    default_or_only-All P (find (λ x. x.is_default) memberships) memberships m
      (λ x f. find-All P (λ x. x.is_default) memberships x f h) h e

chosen-organization :
    (organization_id : Option ℕ) (memberships : List OrganizationMembership)
    (m : OrganizationMembership) (o : ℕ)
    → organization_id ≡ some o
    → chosen organization_id memberships ≡ some m
    → m.organization_id ≡ o
chosen-organization organization_id memberships m o h e =
    let f : find (λ x. x.organization_id == o) memberships ≡ some m =
      subst (λ x. chosen x memberships ≡ some m) h e in
    ==→eq m.organization_id o (find_sound (λ x. x.organization_id == o) memberships m f)

not-false : (b : Bool) → not b ≡ false → b ≡ true
not-false true h = refl
not-false false h = cc

-- the steps of an accepted request
require-inv :
    (roles : UserRole → Bool) (user : User) (organization_id : Option ℕ) (c : CurrentMembership)
    → require roles user organization_id ≡ ok c
    → (resolve_membership user organization_id ≡ ok c) × (roles c.membership.role ≡ true)
unfolding require
require-inv roles user organization_id c e =
    let (d, r, k) = >>=-eq-ok (resolve_membership user organization_id) _ e in
    let (_, guard, same) = >>=-eq-ok (raise_if (not (roles d.membership.role)) authorization) _ k in
    let q : d ≡ c = cc in
    let g = raise_if-eq-ok (not (roles d.membership.role)) authorization guard in
    (
      rw (← q) r,
      subst (λ (x : CurrentMembership). roles x.membership.role ≡ true) q
          (not-false (roles d.membership.role) g),
    )

-- A request that one of the access checks lets through acts for its own user, through a membership that is active in an
-- active organization, with a role that the check admits; and where the request names an organization, through a
-- membership of that organization.
pub require_access :
    (roles : UserRole → Bool) (user : User) (organization_id : Option ℕ) (c : CurrentMembership)
    → require roles user organization_id ≡ ok c
    → (c.user ≡ user)
      × (is_live c.membership ≡ true)
      × (roles c.membership.role ≡ true)
      × ((o : ℕ) → organization_id ≡ some o → c.membership.organization_id ≡ o)
unfolding resolve_membership
require_access roles user organization_id c e =
    let (r, role) = require-inv roles user organization_id c e in
    let (m, found, same) =
      >>=-eq-ok (or_raise (chosen organization_id (active_memberships user)) authorization) _ r in
    let f = or_raise-eq-ok (chosen organization_id (active_memberships user)) authorization found in
    let q : record { user = user; membership = m } ≡ c = cc in
    subst
      (λ (d : CurrentMembership).
        (d.user ≡ user)
        × (is_live d.membership ≡ true)
        × (roles d.membership.role ≡ true)
        × ((o : ℕ) → organization_id ≡ some o → d.membership.organization_id ≡ o))
      q
      (
        refl,
        chosen-All (λ x. is_live x ≡ true) organization_id (active_memberships user) m
            (All-select_self is_live user.memberships) f,
        subst (λ (d : CurrentMembership). roles d.membership.role ≡ true) (sym q) role,
        λ o h. chosen-organization organization_id (active_memberships user) m o h f,
      )

require-intro :
    (roles : UserRole → Bool) (user : User) (organization_id : Option ℕ) (c : CurrentMembership)
    → resolve_membership user organization_id ≡ ok c
    → roles c.membership.role ≡ true
    → require roles user organization_id ≡ ok c
unfolding require
require-intro roles user organization_id c r h = rw (r, h) refl

audit-writes : (r : UserRole) → can_audit r ≡ true → can_write r ≡ true
audit-writes viewer h = cc
audit-writes operator h = cc
audit-writes manager h = refl
audit-writes admin h = refl

write-generates : (r : UserRole) → can_write r ≡ true → can_generate r ≡ true
write-generates viewer h = cc
write-generates operator h = refl
write-generates manager h = refl
write-generates admin h = refl

reads : (r : UserRole) → can_read r ≡ true
reads viewer = refl
reads operator = refl
reads manager = refl
reads admin = refl

-- The roles are ordered: whoever may read the audit log of an organization may write its templates, generate
-- documents, and read templates and jobs there, as the same member.
pub audit_access-order :
    (user : User) (organization_id : Option ℕ) (c : CurrentMembership)
    → require_audit_access user organization_id ≡ ok c
    → (require_template_write_access user organization_id ≡ ok c)
      × (require_generation_access user organization_id ≡ ok c)
      × (require_template_read_access user organization_id ≡ ok c)
      × (require_job_read_access user organization_id ≡ ok c)
unfolding require_audit_access require_template_write_access require_generation_access
    require_template_read_access require_job_read_access
audit_access-order user organization_id c e =
    let (r, h) = require-inv can_audit user organization_id c e in
    let w = audit-writes c.membership.role h in
    (
      require-intro can_write user organization_id c r w,
      require-intro can_generate user organization_id c r (write-generates c.membership.role w),
      require-intro can_read user organization_id c r (reads c.membership.role),
      require-intro can_read user organization_id c r (reads c.membership.role),
    )

find-select-none :
    (p q : OrganizationMembership → Bool) (xs : List OrganizationMembership)
    → any (λ m. p m && q m) xs ≡ false
    → find q (select p xs) ≡ none
find-select-none p q [] h = refl
find-select-none p q (x ∷ xs) h = ground (arith, find-select-none p q xs)

-- No access across tenants: a user without an active membership in an active organization with the named identifier is
-- refused with an authorization error, whatever roles the check admits.
pub require_isolation :
    (roles : UserRole → Bool) (user : User) (o : ℕ)
    → any (λ m. is_live m && m.organization_id == o) user.memberships ≡ false
    → require roles user (some o) ≡ err authorization
unfolding require resolve_membership
require_isolation roles user o h =
    rw (find-select-none is_live (λ m. m.organization_id == o) user.memberships h) refl
