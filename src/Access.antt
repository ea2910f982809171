-- ===== src/Access.antt =====
-- app/api/dependencies/auth.py and authorization.py: which requests of a user reach a route. Reading the
-- bearer token from the request and binding log fields to it are not modelled.
pub mod Roles
mod Tests
use document_generation_anek.Prelude.{
  ℕ, Bool, true, false, not, ◌&&◌, ◌||◌, Option, none, some, List, [], ◌∷◌, find, select, any, ◌==◌,
  if◌then◌else◌,
}
use document_generation_anek.Models.{
  UserRole, admin, manager, operator, viewer, Organization, OrganizationMembership, User,
}
use document_generation_anek.Result.{
  Result, ok, err, authorization, authentication, ◌>>=◌, ◌>>◌, raise_if, or_raise,
}
use document_generation_anek.Database.{Tx, gets, lift}

pub record CurrentMembership : Type 0 where
  pub user : User
  pub membership : OrganizationMembership

-- active, with an organization that is active
abbrev pub organization_active : Option Organization → Bool
organization_active none = false
organization_active (some o) = o.is_active

abbrev pub is_live : OrganizationMembership → Bool
is_live m = m.is_active && organization_active m.organization

abbrev pub active_memberships : User → List OrganizationMembership
active_memberships user = select is_live user.memberships

-- the default membership, or the only one
abbrev pub default_or_only :
    Option OrganizationMembership → List OrganizationMembership → Option OrganizationMembership
default_or_only (some m) memberships = some m
default_or_only none [] = none
default_or_only none (m ∷ []) = some m
default_or_only none (m ∷ n ∷ memberships) = none

abbrev pub chosen : Option ℕ → List OrganizationMembership → Option OrganizationMembership
chosen (some organization_id) memberships =
    find (λ m. m.organization_id == organization_id) memberships
chosen none memberships = default_or_only (find (λ m. m.is_default) memberships) memberships

-- without a membership nothing can be chosen, so both tests of the code are one failure here
unfoldable pub resolve_membership : User → Option ℕ → Result CurrentMembership
resolve_membership user organization_id = do
  membership ← or_raise (chosen organization_id (active_memberships user)) authorization
  ok (record { user = user; membership = membership })

-- CurrentMembership.assert_organization_access
unfoldable pub assert_organization_access : CurrentMembership → ℕ → Result (Unit {0})
assert_organization_access current organization_id =
    raise_if (not (current.membership.organization_id == organization_id)) authorization

-- `_TEMPLATE_READ_ROLES`, `_TEMPLATE_WRITE_ROLES`, `_GENERATION_ROLES` and `_AUDIT_ROLES`
abbrev pub can_read : UserRole → Bool
can_read = elim [ viewer ↦ true | operator ↦ true | manager ↦ true | admin ↦ true ]

abbrev pub can_write : UserRole → Bool
can_write = elim [ viewer ↦ false | operator ↦ false | manager ↦ true | admin ↦ true ]

abbrev pub can_generate : UserRole → Bool
can_generate = elim [ viewer ↦ false | operator ↦ true | manager ↦ true | admin ↦ true ]

abbrev pub can_audit : UserRole → Bool
can_audit = elim [ viewer ↦ false | operator ↦ false | manager ↦ false | admin ↦ true ]

abbrev pub require : (UserRole → Bool) → User → Option ℕ → Result CurrentMembership
unfolding resolve_membership
require roles user organization_id = do
  current ← resolve_membership user organization_id
  raise_if (not (roles current.membership.role)) authorization
  ok current

unfoldable pub require_template_read_access : User → Option ℕ → Result CurrentMembership
unfolding require
require_template_read_access = require can_read

unfoldable pub require_job_read_access : User → Option ℕ → Result CurrentMembership
unfolding require
require_job_read_access = require can_read

unfoldable pub require_template_write_access : User → Option ℕ → Result CurrentMembership
unfolding require
require_template_write_access = require can_write

unfoldable pub require_generation_access : User → Option ℕ → Result CurrentMembership
unfolding require
require_generation_access = require can_generate

unfoldable pub require_audit_access : User → Option ℕ → Result CurrentMembership
unfolding require
require_audit_access = require can_audit

abbrev pub found_user : Option User → Result User
found_user none = err authentication
found_user (some user) = do
  raise_if (not user.is_active) authentication
  raise_if (not (any is_live user.memberships)) authentication
  ok user

-- `get_current_user`, for the decoded claims' user
unfoldable pub get_current_user : ℕ → Tx User
get_current_user user_id db = lift (found_user (find (λ u. u.id == user_id) db.users)) db
