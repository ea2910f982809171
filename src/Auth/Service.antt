-- ===== src/Auth/Service.antt =====
-- app/services/auth_service.py: login, refresh and logout, with the user and refresh-session repositories. The time
-- and the freshly generated token are arguments.
use Prim.Native.String.{String}
use text.Mathlib.Text.{◌==◌ as str_eq}
use document_generation_anek.Prelude.{
  ℕ, suc, ◌+◌, Bool, not, ◌&&◌, ◌||◌, Option, none, some, [], ◌∷◌, ◌++◌, find, select, update,
  length, leb, ◌==◌, is_some, if◌then◌else◌,
}
use document_generation_anek.Models.{User, AuthSession}
use document_generation_anek.Result.{ok, authentication}
use document_generation_anek.Database.{
  Tx, pure, gets, lift, modify, raise_if, or_raise, ◌>>=◌, ◌>>◌,
}
use document_generation_anek.Auth.Users.{
  Crypto, AuthTokenResponse, ensure_user_can_authenticate, build_token_response,
}

-- UserRepository
unfoldable pub user_by_email : Crypto → String → Tx (Option User)
user_by_email crypto email =
    gets λ db. find (λ u. str_eq u.email (crypto.normalize_email email)) db.users

unfoldable pub user_by_id : ℕ → Tx (Option User)
user_by_id user_id = gets λ db. find (λ u. u.id == user_id) db.users

unfoldable pub mark_logged_in : ℕ → User → Tx (Unit {0})
mark_logged_in now user = modify λ db. record db {
  users = update (λ u. u.id == user.id) (λ u. record u { last_login_at = some now }) db.users;
}

unfoldable pub set_active : User → Bool → Tx (Unit {0})
set_active user is_active = modify λ db. record db {
  users = update (λ u. u.id == user.id) (λ u. record u { is_active = is_active }) db.users;
}

-- AuthSessionRepository
unfoldable pub session_by_hash : String → Tx (Option AuthSession)
session_by_hash hash = gets λ db. find (λ s. str_eq s.refresh_token_hash hash) db.sessions

abbrev pub save_session : (AuthSession → AuthSession) → AuthSession → Tx (Unit {0})
save_session f session =
    modify λ db. record db { sessions = update (λ s. s.id == session.id) f db.sessions }

abbrev pub revoked_session : ℕ → AuthSession → AuthSession
revoked_session now s = record s { revoked_at = some now }

abbrev pub touched_session : ℕ → AuthSession → AuthSession
touched_session now s = record s { last_used_at = some now }

unfoldable pub revoke_session : ℕ → AuthSession → Tx (Unit {0})
revoke_session now = save_session (revoked_session now)

unfoldable pub touch_session : ℕ → AuthSession → Tx (Unit {0})
touch_session now = save_session (touched_session now)

unfoldable pub create_session : ℕ → String → ℕ → Tx (Unit {0})
create_session user_id hash expires_at = modify λ db. record db {
  next_id = suc db.next_id;
  sessions =
      db.sessions
      ++ record {
        id = db.next_id;
        user_id = user_id;
        refresh_token_hash = hash;
        expires_at = expires_at;
        revoked_at = none;
        last_used_at = none;
      }
        ∷ [];
}

unfoldable pub revoke_all_for_user : ℕ → ℕ → Tx ℕ
revoke_all_for_user now user_id db =
    let active = λ (s : AuthSession). s.user_id == user_id && not (is_some s.revoked_at) in
    ok (
      length (select active db.sessions),
      record db { sessions = update active (revoked_session now) db.sessions },
    )

-- AuthService.login; `ttl` is the lifetime of a refresh token and `token` the new one
unfoldable pub login : Crypto → ℕ → ℕ → String → String → String → Tx AuthTokenResponse
unfolding ensure_user_can_authenticate user_by_email mark_logged_in create_session
    build_token_response
login crypto now ttl token email password = do
  found ← user_by_email crypto email
  user ← lift (ensure_user_can_authenticate found)
  raise_if (not (crypto.verify_password password user.password_hash)) authentication
  mark_logged_in now user
  create_session user.id (crypto.hash_refresh_token token) (now + ttl)
  lift (build_token_response crypto user token)

-- revoked, or expired at `now`
abbrev pub is_spent : ℕ → AuthSession → Bool
is_spent now s = is_some s.revoked_at || leb s.expires_at now

-- AuthService.refresh: the session's user is read by its foreign key
unfoldable pub refresh : Crypto → ℕ → ℕ → String → String → Tx AuthTokenResponse
unfolding session_by_hash ensure_user_can_authenticate user_by_id touch_session revoke_session
    create_session build_token_response
refresh crypto now ttl token refresh_token = do
  found ← session_by_hash (crypto.hash_refresh_token refresh_token)
  session ← or_raise found authentication
  raise_if (is_spent now session) authentication
  owner ← user_by_id session.user_id
  user ← lift (ensure_user_can_authenticate owner)
  touch_session now session
  revoke_session now session
  create_session user.id (crypto.hash_refresh_token token) (now + ttl)
  lift (build_token_response crypto user token)

-- AuthService.logout
unfoldable pub logout_found : ℕ → ℕ → Option AuthSession → Tx (Unit {0})
unfolding revoke_session
logout_found now user_id none = pure tt
logout_found now user_id (some s) =
    if not (s.user_id == user_id)
    then pure tt
    else if is_some s.revoked_at
    then pure tt
    else revoke_session now s

unfoldable pub logout : Crypto → ℕ → String → ℕ → Tx (Unit {0})
unfolding session_by_hash logout_found
logout crypto now refresh_token user_id = do
  found ← session_by_hash (crypto.hash_refresh_token refresh_token)
  logout_found now user_id found
