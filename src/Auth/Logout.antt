-- ===== src/Auth/Logout.antt =====
-- `logout` and `login`: who may end a session, and what a login checks.
use Prim.Native.String.{String}
use text.Mathlib.Text.{◌==◌ as str_eq}
use document_generation_anek.Prelude.{
  ℕ, suc, ◌+◌, ◌≡◌, ◌≢◌, refl, sym, ◌∙◌, true, false, Option, some, ◌∷◌, [], ◌++◌, find, update,
  is_some, ◌==◌, ==-self, ==→eq, Bool-cases, inl, inr,
}
use document_generation_anek.Models.{User, AuthSession}
use document_generation_anek.Result.{Result-cases, Error, ok, err, authentication}
use document_generation_anek.Database.{Db, lift}
use document_generation_anek.Auth.Users.{
  Crypto, AuthTokenResponse, ensure_user_can_authenticate, build_token_response,
}
use document_generation_anek.Auth.Service.{
  session_by_hash, revoked_session, refresh, revoke_session, mark_logged_in, create_session, logout,
  logout_found, user_by_email, login,
}
use document_generation_anek.Auth.Sessions.{
  session_of, revoked_later, refused, new_session, lift-inv,
}

logout_reaches :
    (crypto : Crypto) (now user_id : ℕ) (refresh_token : String) (s : AuthSession) (db : Db)
    → session_of crypto refresh_token db ≡ some s
    → logout crypto now refresh_token user_id db ≡ logout_found now user_id (some s) db
unfolding logout session_by_hash
logout_reaches crypto now user_id refresh_token s db e = rw e refl

-- After its owner logs out with a refresh token, the token is refused: every later refresh with it is an authentication
-- error, whether or not the session had been revoked before.
pub logout-refresh :
    (crypto : Crypto) (now user_id now' ttl' : ℕ) (refresh_token token' : String) (s : AuthSession)
    (db : Db)
    → session_of crypto refresh_token db ≡ some s
    → s.user_id ≡ user_id
    → (db' : Db) × (logout crypto now refresh_token user_id db ≡ ok (tt, db'))
      × (refresh crypto now' ttl' token' refresh_token db' ≡ err authentication)
unfolding logout_found revoke_session
logout-refresh crypto now user_id now' ttl' refresh_token token' s db e mine =
    let own : (s.user_id == user_id) ≡ true = rw mine (==-self user_id) in
    elim (Bool-cases (is_some s.revoked_at)) [
      | inl h ↦ (
        db,
        logout_reaches crypto now user_id refresh_token s db e ∙ rw (own, h) refl,
        refused crypto now' ttl' token' refresh_token s db e (rw h refl),
      )
      | inr h ↦ (
        record db { sessions = update (λ x. x.id == s.id) (revoked_session now) db.sessions },
        logout_reaches crypto now user_id refresh_token s db e ∙ rw (own, h) refl,
        refused crypto now' ttl' token' refresh_token (revoked_session now s) _
            (revoked_later crypto now refresh_token s db.sessions e) refl,
      )
    ]

-- Another user's token does nothing: the call returns and writes nothing.
pub logout_foreign :
    (crypto : Crypto) (now user_id : ℕ) (refresh_token : String) (s : AuthSession) (db : Db)
    → session_of crypto refresh_token db ≡ some s
    → s.user_id ≢ user_id
    → logout crypto now refresh_token user_id db ≡ ok (tt, db)
unfolding logout_found
logout_foreign crypto now user_id refresh_token s db e other =
    let own : (s.user_id == user_id) ≡ false = elim (Bool-cases (s.user_id == user_id)) [
      | inl h ↦ absurd (other (==→eq s.user_id user_id h))
      | inr h ↦ h
    ] in
    logout_reaches crypto now user_id refresh_token s db e ∙ rw own refl

module _ (crypto : Crypto) (now ttl : ℕ) (token email password : String) (db : Db) where
  abbrev pub account : Option User
  account = find (λ u. str_eq u.email (crypto.normalize_email email)) db.users

  login_refused :
      (x : Error)
      → ensure_user_can_authenticate account ≡ err x
      → login crypto now ttl token email password db ≡ err x
  unfolding login user_by_email
  login_refused x u = rw u refl

  wrong_password :
      (user : User)
      → ensure_user_can_authenticate account ≡ ok user
      → crypto.verify_password password user.password_hash ≡ false
      → login crypto now ttl token email password db ≡ err authentication
  unfolding login user_by_email
  wrong_password user u v = rw u (rw v refl)

  -- the tables after the writes of `login`
  abbrev pub logged_in : User → Db
  logged_in user = record db {
    next_id = suc db.next_id;
    users = update (λ u. u.id == user.id) (λ u. record u { last_login_at = some now }) db.users;
    sessions = db.sessions ++ new_session crypto user.id token (now + ttl) db.next_id ∷ [];
  }

  login_accepted :
      (user : User)
      → ensure_user_can_authenticate account ≡ ok user
      → crypto.verify_password password user.password_hash ≡ true
      → login crypto now ttl token email password db
        ≡ lift (build_token_response crypto user token) (logged_in user)
  unfolding login user_by_email mark_logged_in create_session
  login_accepted user u v = rw u (rw v refl)

-- A login that returns has found an account with the normalized e-mail address that may authenticate (it is active and
-- has an active membership), the password verifies against its hash, and what it writes is the time of the login and
-- one new session of that user, which expires after `ttl`.
pub login_checks :
    (crypto : Crypto) (now ttl : ℕ) (token email password : String) (r : AuthTokenResponse)
    (db db' : Db)
    → login crypto now ttl token email password db ≡ ok (r, db')
    → (user : User) × (ensure_user_can_authenticate (account crypto now ttl token email password db)
        ≡ ok user)
      × (crypto.verify_password password user.password_hash ≡ true)
      × (db' ≡ logged_in crypto now ttl token email password db user)
login_checks crypto now ttl token email password r db db' k =
    elim (Result-cases
      (ensure_user_can_authenticate (account crypto now ttl token email password db))) [
        | inr (x, u) ↦ absurd (cc (login_refused crypto now ttl token email password db x u))
        | inl (user, u) ↦ elim (Bool-cases (crypto.verify_password password user.password_hash)) [
          | inr v ↦ absurd (cc (wrong_password crypto now ttl token email password db user u v))
          | inl v ↦
              let (b, d) =
                lift-inv (build_token_response crypto user token)
                  (sym (login_accepted crypto now ttl token email password db user u v) ∙ k) in
              (user, u, v, sym d)
        ]
      ]
