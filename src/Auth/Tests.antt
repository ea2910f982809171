-- ===== src/Auth/Tests.antt =====
-- Examples of the session properties.
use Prim.Native.String.{String}
use document_generation_anek.Prelude.{◌≡◌, refl, true, [], ◌∷◌, arith}
use document_generation_anek.Models.{AuthSession}
use document_generation_anek.Result.{ok, err, authentication}
use document_generation_anek.Database.{Db}
use document_generation_anek.Fixtures.{empty, acme, member, alice}
use document_generation_anek.Auth.Users.{
  Crypto, AuthTokenResponse, ensure_user_can_authenticate, build_token_response, serialize_user,
  get_default_membership,
}
use document_generation_anek.Auth.Service.{
  refresh, logout, login, session_by_hash, user_by_id, user_by_email, mark_logged_in, touch_session,
  revoke_session, create_session,
}
use document_generation_anek.Auth.Sessions.{new_session, after, refresh_once, refresh_rotates}
use document_generation_anek.Auth.Logout.{logged_in, logout-refresh}

-- a hash that changes nothing, and a password that equals its hash
abbrev crypto : Crypto
crypto = record {
  normalize_email = λ s. s;
  verify_password = λ p h. true;
  hash_refresh_token = λ s. s;
  create_access_token = λ id. "access";
}

abbrev opened : AuthSession
opened = new_session crypto 5 "old" 90 1

abbrev signed_in : Db
signed_in = record empty { users = alice ∷ []; sessions = opened ∷ [] }

abbrev response : String → AuthTokenResponse
response token = record {
  access_token = "access";
  refresh_token = token;
  user = record {
    id = 5;
    organization_id = 7;
    email = "alice@acme.kz";
    role = member.role;
    is_active = true;
    organization = acme;
    memberships = member ∷ [];
  };
}

abbrev rotated : Db
rotated = after crypto 50 100 "new" "old" opened signed_in alice

refreshing : refresh crypto 50 100 "new" "old" signed_in ≡ ok (response "new", rotated)
unfolding refresh session_by_hash ensure_user_can_authenticate user_by_id touch_session
    revoke_session create_session build_token_response serialize_user get_default_membership
refreshing = refl

refresh_once_example : refresh crypto 60 100 "again" "old" rotated ≡ err authentication
refresh_once_example =
    refresh_once crypto 50 100 60 100 "new" "old" "again" (response "new") signed_in rotated
      refreshing

refresh_rotates_example :
    (r : AuthTokenResponse) × (db : Db) × (refresh crypto 60 100 "again" "new" rotated ≡ ok (r, db))
refresh_rotates_example =
    refresh_rotates crypto 50 100 60 100 "new" "old" "again" (response "new") signed_in rotated
      refreshing refl (omega arith)

logout-refresh_example :
    (db : Db) × (logout crypto 50 "old" 5 signed_in ≡ ok (tt, db))
    × (refresh crypto 60 100 "again" "old" db ≡ err authentication)
logout-refresh_example = logout-refresh crypto 50 5 60 100 "old" "again" opened signed_in refl refl

logging_in :
    login crypto 50 100 "new" "alice@acme.kz" "pw" signed_in
    ≡ ok (response "new", logged_in crypto 50 100 "new" "alice@acme.kz" "pw" signed_in alice)
unfolding login user_by_email ensure_user_can_authenticate mark_logged_in create_session
    build_token_response serialize_user get_default_membership
logging_in = refl
