-- ===== src/Auth/Users.antt =====
-- The parts of app/services/auth_service.py that only read a loaded user.
use Prim.Native.String.{String}
use document_generation_anek.Prelude.{
  ℕ, Bool, true, false, not, Option, none, some, List, [], ◌∷◌, find, ltb, if◌then◌else◌,
}
use document_generation_anek.Models.{Organization, OrganizationMembership, User, UserRole}
use document_generation_anek.Result.{
  Result, ok, err, authentication, validation, ◌>>=◌, or_raise, raise_if,
}
use document_generation_anek.Access.{active_memberships}

-- password hashing, SHA-256, JWT encoding and `str.lower`
pub record Crypto : Type 0 where
  pub normalize_email : String → String
  pub verify_password : String → String → Bool
  pub hash_refresh_token : String → String
  pub create_access_token : ℕ → String

pub record AuthUserResponse : Type 0 where
  pub id : ℕ
  pub organization_id : ℕ
  pub email : String
  pub role : UserRole
  pub is_active : Bool
  pub organization : Organization
  pub memberships : List OrganizationMembership

pub record AuthTokenResponse : Type 0 where
  pub access_token : String
  pub refresh_token : String
  pub user : AuthUserResponse

-- AuthService._ensure_user_can_authenticate
abbrev pub some_membership : List OrganizationMembership → Bool
some_membership [] = false
some_membership (m ∷ ms) = true

unfoldable pub ensure_user_can_authenticate : Option User → Result User
ensure_user_can_authenticate none = err authentication
ensure_user_can_authenticate (some user) =
    if not user.is_active
    then err authentication
    else if some_membership (active_memberships user)
    then ok user
    else err authentication

-- AuthService._get_default_membership
abbrev pub default_membership :
    Option OrganizationMembership → List OrganizationMembership → Result OrganizationMembership
default_membership (some m) memberships = ok m
default_membership none [] = err authentication
default_membership none (m ∷ []) = ok m
default_membership none (m ∷ n ∷ memberships) = err authentication

unfoldable pub get_default_membership : User → Result OrganizationMembership
get_default_membership user =
    default_membership (find (λ m. m.is_default) (active_memberships user))
      (active_memberships user)

-- AuthService._serialize_user
unfoldable pub serialize_user : User → Result AuthUserResponse
unfolding get_default_membership
serialize_user user = do
  m ← get_default_membership user
  organization ← or_raise m.organization authentication
  ok (record {
    id = user.id;
    organization_id = m.organization_id;
    email = user.email;
    role = m.role;
    is_active = user.is_active;
    organization = organization;
    memberships = active_memberships user;
  })

-- AuthService.get_me
unfoldable pub get_me : User → Result AuthUserResponse
unfolding ensure_user_can_authenticate serialize_user
get_me user = ensure_user_can_authenticate (some user) >>= serialize_user

-- AuthService.validate_password_strength, for a password of `n` characters
unfoldable pub validate_password_strength : ℕ → ℕ → Result (Unit {0})
validate_password_strength password_min_length n = raise_if (ltb n password_min_length) validation

-- AuthService._build_token_response
unfoldable pub build_token_response : Crypto → User → String → Result AuthTokenResponse
unfolding serialize_user
build_token_response crypto user refresh_token = do
  response ← serialize_user user
  ok (record {
    access_token = crypto.create_access_token user.id;
    refresh_token = refresh_token;
    user = response;
  })
