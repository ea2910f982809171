-- ===== src/Operations/LockOut.antt =====
-- A user that was disabled gets no tokens any more.
use Prim.Native.String.{String}
use text.Mathlib.Text.{◌==◌ as str_eq}
use mathlib.Core.Path.{subst}
use document_generation_anek.Prelude.{
  ℕ, ◌≡◌, refl, ◌∙◌, Bool, true, false, not, ◌&&◌, Option, none, some, List, [], ◌∷◌, any, ◌++◌,
  All, find, find-All, find-update, find_sound, update, select, length, is_some, ◌==◌, ==→eq,
  ==-self, if◌then◌else◌, arith,
}
use document_generation_anek.Models.{User, AuthSession, user_disabled}
use document_generation_anek.Result.{Result, ok, err, authentication, not_found, conflict}
use document_generation_anek.Database.{Db}
use document_generation_anek.Access.{get_current_user}
use document_generation_anek.Audit.{log_event}
use document_generation_anek.Auth.Users.{Crypto, ensure_user_can_authenticate}
use document_generation_anek.Auth.Service.{
  user_by_id, user_by_email, login, set_active, revoke_all_for_user, revoked_session, is_spent,
  refresh,
}
use document_generation_anek.Auth.Sessions.{has_token, session_of, refused}
use document_generation_anek.Operations.{UserDisableResponse, disable_user}

abbrev pub is_active_of : ℕ → AuthSession → Bool
is_active_of user_id s = s.user_id == user_id && not (is_some s.revoked_at)

-- of the user's sessions none is left that is not revoked
abbrev IsRevokedFor : ℕ → AuthSession → Type 0
IsRevokedFor user_id s = (s.user_id == user_id) ≡ true → is_some s.revoked_at ≡ true

all_revoked :
    (now user_id : ℕ) (sessions : List AuthSession)
    → All (IsRevokedFor user_id) (update (is_active_of user_id) (revoked_session now) sessions)
all_revoked now user_id [] = tt
all_revoked now user_id (x ∷ xs) = (here (is_active_of user_id x) refl, all_revoked now user_id xs)
  where
    here :
        (b : Bool)
        → is_active_of user_id x ≡ b
        → IsRevokedFor user_id (if b then revoked_session now x else x)
    here true e = λ _. refl
    here false e = λ h. ground arith

-- the user in the tables afterwards
inactive :
    (user_id : ℕ) (user : User) (users : List User)
    → find (λ u. u.id == user_id) users ≡ some user
    → find
        (λ u. u.id == user_id)
        (update (λ u. u.id == user.id) (λ u. record u { is_active = false }) users)
      ≡ some (record user { is_active = false })
inactive user_id user users h =
    find-update (λ u. u.id == user_id) (λ u. u.id == user.id) (λ u. record u { is_active = false })
      users user (λ u. refl) h
    ∙ rw (==-self user.id) refl

abbrev pub disabled_db : ℕ → ℕ → ℕ → User → Db → Db
disabled_db now organization_id current_user_id user db = record db {
  users = update (λ u. u.id == user.id) (λ u. record u { is_active = false }) db.users;
  sessions = update (is_active_of user.id) (revoked_session now) db.sessions;
  audit =
      db.audit
      ++ record {
        organization_id = organization_id;
        user_id = some current_user_id;
        action = user_disabled;
        entity_id = some user.id;
      }
        ∷ [];
}

abbrev answer : ℕ → User → Db → UserDisableResponse
answer organization_id user db = record {
  id = user.id;
  organization_id = organization_id;
  email = user.email;
  revoked_session_count = length (select (is_active_of user.id) db.sessions);
}

disable_user-inv :
    (now organization_id user_id current_user_id : ℕ) (r : UserDisableResponse) (db db' : Db)
    → disable_user now organization_id user_id current_user_id db ≡ ok (r, db')
    → (user : User) × (find (λ u. u.id == user_id) db.users ≡ some user)
      × (disabled_db now organization_id current_user_id user db ≡ db')
unfolding disable_user user_by_id set_active revoke_all_for_user log_event
disable_user-inv now organization_id user_id current_user_id r db db' h =
    itself (user_id == current_user_id) refl
  where
    outcome : Result (UserDisableResponse × Db)
    outcome = disable_user now organization_id user_id current_user_id db

    Found : Type 0
    Found =
        (user : User) × (find (λ u. u.id == user_id) db.users ≡ some user)
        × (disabled_db now organization_id current_user_id user db ≡ db')

    member :
        (user : User)
        → (user_id == current_user_id) ≡ false
        → find (λ u. u.id == user_id) db.users ≡ some user
        → (b : Bool) → any (λ m. m.organization_id == organization_id) user.memberships ≡ b
        → Found
    member user e f true g =
        let k : outcome
            ≡ ok (
              answer organization_id user db,
              disabled_db now organization_id current_user_id user db,
            ) =
          rw e (rw f (rw g refl)) in
        (user, f, cc)
    member user e f false g =
        let k : outcome ≡ err not_found = rw e (rw f (rw g refl)) in absurd (cc)

    user_found :
        (user_id == current_user_id) ≡ false
        → (o : Option User) → find (λ u. u.id == user_id) db.users ≡ o
        → Found
    user_found e none f = let k : outcome ≡ err not_found = rw e (rw f refl) in absurd (cc)
    user_found e (some user) f =
        member user e f (any (λ m. m.organization_id == organization_id) user.memberships) refl

    itself : (b : Bool) → (user_id == current_user_id) ≡ b → Found
    itself true e = let k : outcome ≡ err conflict = rw e refl in absurd (cc)
    itself false e = user_found e (find (λ u. u.id == user_id) db.users) refl

-- no row of the user is active
abbrev pub IsShut : ℕ → User → Type 0
IsShut user_id u = (u.id == user_id) ≡ true → u.is_active ≡ false

all-IsShut :
    (user_id : ℕ) (users : List User)
    → All
        (IsShut user_id)
        (update (λ u. u.id == user_id) (λ u. record u { is_active = false }) users)
all-IsShut user_id [] = tt
all-IsShut user_id (x ∷ xs) = (here (x.id == user_id) refl, all-IsShut user_id xs)
  where
    here :
        (b : Bool)
        → (x.id == user_id) ≡ b
        → IsShut user_id (if b then record x { is_active = false } else x)
    here true e = λ _. refl
    here false e = λ h. absurd (cc)

-- an account that is not active is refused before its password is looked at
login_shut :
    (crypto : Crypto) (now ttl : ℕ) (token email password : String) (u : User) (db : Db)
    → find (λ x. str_eq x.email (crypto.normalize_email email)) db.users ≡ some u
    → u.is_active ≡ false
    → login crypto now ttl token email password db ≡ err authentication
unfolding login user_by_email ensure_user_can_authenticate
login_shut crypto now ttl token email password u db f h = rw f (rw h refl)

-- What the account's user can no longer do: refresh with a token of any of its sessions, send a request with an access token,
-- log in under any e-mail address that leads to it.
abbrev pub IsLockedOut : ℕ → Db → Type 0
IsLockedOut user_id x =
    (get_current_user user_id x ≡ err authentication)
    × ((crypto : Crypto) (now ttl : ℕ) (token refresh_token : String) (s : AuthSession)
        → session_of crypto refresh_token x ≡ some s
        → s.user_id ≡ user_id
        → refresh crypto now ttl token refresh_token x ≡ err authentication)
    × ((crypto : Crypto) (now ttl : ℕ) (token email password : String) (u : User)
        → find (λ v. str_eq v.email (crypto.normalize_email email)) x.users ≡ some u
        → u.id ≡ user_id
        → login crypto now ttl token email password x ≡ err authentication)

-- After `disable_user` returned, the user is locked out, at any time: a refresh with any token of any of its sessions, a
-- request whose access token names it, and a login with an e-mail address that leads to it, with whatever password, are
-- refused with an authentication error.
pub disable_user-refresh :
    (now organization_id user_id current_user_id : ℕ) (r : UserDisableResponse) (db db' : Db)
    → disable_user now organization_id user_id current_user_id db ≡ ok (r, db')
    → IsLockedOut user_id db'
unfolding get_current_user
disable_user-refresh now organization_id user_id current_user_id r db db' h =
    let (user, f, d) = disable_user-inv now organization_id user_id current_user_id r db db' h in
    subst (IsLockedOut user_id) d (
      rw (inactive user_id user db.users f) refl,
      λ crypto now' ttl token refresh_token s g e.
          refused crypto now' ttl token refresh_token s
            (disabled_db now organization_id current_user_id user db) g
            (spent now' s (
              find-All (IsRevokedFor user.id) (has_token crypto refresh_token)
                (update (is_active_of user.id) (revoked_session now) db.sessions) s g
                (all_revoked now user.id db.sessions) (own user s.user_id f e))),
      λ crypto now' ttl token email password u g e.
          login_shut crypto now' ttl token email password u
            (disabled_db now organization_id current_user_id user db) g
            (find-All (IsShut user.id) (λ v. str_eq v.email (crypto.normalize_email email))
              (update (λ v. v.id == user.id) (λ v. record v { is_active = false }) db.users) u g
              (all-IsShut user.id db.users) (own user u.id f e)),
    )
  where
    spent : (now' : ℕ) (s : AuthSession) → is_some s.revoked_at ≡ true → is_spent now' s ≡ true
    spent now' s q = rw q refl

    own :
        (user : User) (id : ℕ)
        → find (λ u. u.id == user_id) db.users ≡ some user
        → id ≡ user_id
        → (id == user.id) ≡ true
    own user id f e =
        let q : user.id ≡ user_id =
          ==→eq user.id user_id (find_sound (λ u. u.id == user_id) db.users user f) in
        rw q (rw e (==-self user_id))
