-- ===== src/Access/Tests.antt =====
-- Examples of the access properties.
use document_generation_anek.Prelude.{ℕ, ◌≡◌, refl, true, none, some, [], ◌∷◌}
use document_generation_anek.Models.{OrganizationMembership, User, admin}
use document_generation_anek.Result.{ok, err, authorization}
use document_generation_anek.Fixtures.{alice, member}
use document_generation_anek.Access.{
  CurrentMembership, is_live, resolve_membership, can_write, require, require_audit_access,
}
use document_generation_anek.Access.Roles.{require_access, require_isolation}

abbrev as_manager : CurrentMembership
as_manager = record { user = alice; membership = member }

writing : require can_write alice (some 7) ≡ ok as_manager
unfolding require resolve_membership
writing = refl

require_access_example :
    (alice ≡ alice)
    × (is_live member ≡ true)
    × (can_write member.role ≡ true)
    × ((o : ℕ) → some 7 ≡ some o → 7 ≡ o)
require_access_example = require_access can_write alice (some 7) as_manager writing

require_isolation_example : require can_write alice (some 8) ≡ err authorization
require_isolation_example = require_isolation can_write alice 8 refl

abbrev root_member : OrganizationMembership
root_member = record member { role = admin }

abbrev root : User
root = record alice { memberships = root_member ∷ [] }

abbrev as_admin : CurrentMembership
as_admin = record { user = root; membership = root_member }

auditing : require_audit_access root none ≡ ok as_admin
unfolding require_audit_access require resolve_membership
auditing = refl
