-- ===== src/Auth/Sessions.antt =====
-- The life of a refresh token: one use, and none after a logout.
use Prim.Native.String.{String}
use mathlib.Core.Path.{subst}
use text.Mathlib.Text.{◌==◌ as str_eq}
use text.Mathlib.TextPositions.{eq_refl}
use document_generation_anek.Prelude.{
  ℕ, suc, ◌+◌, ◌<◌, ◌≡◌, refl, sym, ◌∙◌, Bool, true, false, not, Option, none, some, List, [], ◌∷◌,
  ◌++◌, find, find-update, find-update-none, find_sound, ==→eq, find-append_some, find-append_none,
  update, ◌==◌, ==-self, Option-cases, Bool-cases, inl, inr, if◌then◌else◌, arith,
}
use document_generation_anek.Models.{User, AuthSession}
use document_generation_anek.Result.{
  Result, Result-cases, >>=-eq-ok, Error, ok, err, authentication,
}
use document_generation_anek.Database.{Db, lift}
use document_generation_anek.Access.{active_memberships}
use document_generation_anek.Auth.Users.{
  some_membership, Crypto, AuthTokenResponse, serialize_user, ensure_user_can_authenticate,
  build_token_response,
}
use document_generation_anek.Auth.Service.{
  session_by_hash, is_spent, revoked_session, touched_session, refresh, revoke_session,
  touch_session, create_session, user_by_id,
}

-- the query of a refresh token's session
abbrev pub has_token : Crypto → String → AuthSession → Bool
has_token crypto refresh_token s =
    str_eq s.refresh_token_hash (crypto.hash_refresh_token refresh_token)

abbrev pub session_of : Crypto → String → Db → Option AuthSession
session_of crypto refresh_token db = find (has_token crypto refresh_token) db.sessions

-- the row that `refresh` and `login` add, and the writes of `refresh` to the old one
abbrev pub new_session : Crypto → ℕ → String → ℕ → ℕ → AuthSession
new_session crypto user_id token expires_at id = record {
  id = id;
  user_id = user_id;
  refresh_token_hash = crypto.hash_refresh_token token;
  expires_at = expires_at;
  revoked_at = none;
  last_used_at = none;
}

abbrev pub spend : ℕ → AuthSession → List AuthSession → List AuthSession
spend now s sessions =
    update (λ x. x.id == s.id) (revoked_session now)
      (update (λ x. x.id == s.id) (touched_session now) sessions)

-- A token that leads to no session, or to a spent one, is refused.
pub refused :
    (crypto : Crypto) (now ttl : ℕ) (token refresh_token : String) (s : AuthSession) (db : Db)
    → session_of crypto refresh_token db ≡ some s
    → is_spent now s ≡ true
    → refresh crypto now ttl token refresh_token db ≡ err authentication
unfolding refresh session_by_hash
refused crypto now ttl token refresh_token s db e h = rw e (rw h refl)

pub lift-inv :
    {A : Type 0} (r : Result A) {a : A} {db db' : Db}
    → lift r db ≡ ok (a, db')
    → (r ≡ ok a) × (db ≡ db')
lift-inv (ok b) h = (cc, cc)
lift-inv (err e) h = cc

-- the user that owns a session
abbrev pub owner : AuthSession → Db → Option User
owner s db = find (λ u. u.id == s.user_id) db.users

module _ (crypto : Crypto) (now ttl : ℕ) (token refresh_token : String) (s : AuthSession)
    (db : Db) where
  -- the tables after the writes of `refresh`
  abbrev pub after : User → Db
  after user = record db {
    next_id = suc db.next_id;
    sessions =
        spend now s db.sessions ++ new_session crypto user.id token (now + ttl) db.next_id ∷ [];
  }

  module _ (e : session_of crypto refresh_token db ≡ some s) (h : is_spent now s ≡ false) where
    accepted :
        (user : User)
        → ensure_user_can_authenticate (owner s db) ≡ ok user
        → refresh crypto now ttl token refresh_token db
          ≡ lift (build_token_response crypto user token) (after user)
    unfolding refresh session_by_hash user_by_id touch_session revoke_session create_session
    accepted user u = rw e (rw h (rw u refl))

    owner_refused :
        (x : Error)
        → ensure_user_can_authenticate (owner s db) ≡ err x
        → refresh crypto now ttl token refresh_token db ≡ err x
    unfolding refresh session_by_hash user_by_id
    owner_refused x u = rw e (rw h (rw u refl))

no_session :
    (crypto : Crypto) (now ttl : ℕ) (token refresh_token : String) (db : Db)
    → session_of crypto refresh_token db ≡ none
    → refresh crypto now ttl token refresh_token db ≡ err authentication
unfolding refresh session_by_hash
no_session crypto now ttl token refresh_token db e = rw e refl

-- what a refresh that returns has read and written
pub refresh-inv :
    (crypto : Crypto) (now ttl : ℕ) (token refresh_token : String) (r : AuthTokenResponse)
    (db db' : Db)
    → refresh crypto now ttl token refresh_token db ≡ ok (r, db')
    → (s : AuthSession) × (user : User) × (session_of crypto refresh_token db ≡ some s)
      × (is_spent now s ≡ false)
      × (ensure_user_can_authenticate (owner s db) ≡ ok user)
      × (build_token_response crypto user token ≡ ok r)
      × (after crypto now ttl token refresh_token s db user ≡ db')
refresh-inv crypto now ttl token refresh_token r db db' k =
    elim (Option-cases (session_of crypto refresh_token db)) [
      | inl n ↦ absurd (cc (no_session crypto now ttl token refresh_token db n))
      | inr (s, e) ↦ elim (Bool-cases (is_spent now s)) [
        | inl h ↦ absurd (cc (refused crypto now ttl token refresh_token s db e h))
        | inr h ↦ elim (Result-cases (ensure_user_can_authenticate (owner s db))) [
          | inr (x, u) ↦ absurd (cc (owner_refused crypto now ttl token refresh_token s db e h x u))
          | inl (user, u) ↦
              let (b, d) =
                lift-inv (build_token_response crypto user token)
                  (sym (accepted crypto now ttl token refresh_token s db e h user u) ∙ k) in
              (s, user, e, h, u, b, d)
        ]
      ]
    ]

-- the writes to a session do not touch its token
pub revoked_later :
    (crypto : Crypto) (now : ℕ) (refresh_token : String) (s : AuthSession)
    (sessions : List AuthSession)
    → find (has_token crypto refresh_token) sessions ≡ some s
    → find
        (has_token crypto refresh_token)
        (update (λ x. x.id == s.id) (revoked_session now) sessions)
      ≡ some (revoked_session now s)
revoked_later crypto now refresh_token s sessions e =
    find-update (has_token crypto refresh_token) (λ x. x.id == s.id) (revoked_session now) sessions
      s (λ x. refl) e
    ∙ rw (==-self s.id) refl

touched_later :
    (crypto : Crypto) (now : ℕ) (refresh_token : String) (s : AuthSession)
    (sessions : List AuthSession)
    → find (has_token crypto refresh_token) sessions ≡ some s
    → find
        (has_token crypto refresh_token)
        (update (λ x. x.id == s.id) (touched_session now) sessions)
      ≡ some (touched_session now s)
touched_later crypto now refresh_token s sessions e =
    find-update (has_token crypto refresh_token) (λ x. x.id == s.id) (touched_session now) sessions
      s (λ x. refl) e
    ∙ rw (==-self s.id) refl

-- A refresh token works once: after a refresh that returned, every further refresh with the same token is refused with
-- an authentication error, at any time.
pub refresh_once :
    (crypto : Crypto) (now ttl now' ttl' : ℕ) (token refresh_token token' : String)
    (r : AuthTokenResponse) (db db' : Db)
    → refresh crypto now ttl token refresh_token db ≡ ok (r, db')
    → refresh crypto now' ttl' token' refresh_token db' ≡ err authentication
refresh_once crypto now ttl now' ttl' token refresh_token token' r db db' k =
    let (s, user, e, _, _, _, d) = refresh-inv crypto now ttl token refresh_token r db db' k in
    let f : session_of crypto refresh_token (after crypto now ttl token refresh_token s db user)
        ≡ some (revoked_session now (touched_session now s)) =
      find-append_some (has_token crypto refresh_token) (spend now s db.sessions)
        (new_session crypto user.id token (now + ttl) db.next_id ∷ [])
        (revoked_session now (touched_session now s))
        (revoked_later crypto now refresh_token (touched_session now s)
          (update (λ x. x.id == s.id) (touched_session now) db.sessions)
          (touched_later crypto now refresh_token s db.sessions e)) in
    subst (λ x. refresh crypto now' ttl' token' refresh_token x ≡ err authentication) d
      (refused crypto now' ttl' token' refresh_token (revoked_session now (touched_session now s))
        (after crypto now ttl token refresh_token s db user) f refl)

ensure-same :
    (o : Option User) (user : User) → ensure_user_can_authenticate o ≡ ok user → o ≡ some user
unfolding ensure_user_can_authenticate
ensure-same none user h = absurd (cc)
ensure-same (some u) user h = pick u.is_active (some_membership (active_memberships u)) h
  where
    pick :
        (a b : Bool)
        → (if not a then err authentication else if b then ok u else err authentication) ≡ ok user
        → some u ≡ some user
    pick true true k = cc
    pick true false k = absurd (cc)
    pick false b k = absurd (cc)

build-token :
    (crypto : Crypto) (user : User) (token token' : String) (r : AuthTokenResponse)
    → build_token_response crypto user token ≡ ok r
    → (r' : AuthTokenResponse) × (build_token_response crypto user token' ≡ ok r')
unfolding build_token_response
build-token crypto user token token' r h =
    let (m, e, _) = >>=-eq-ok (serialize_user user) _ h in
    (
      record {
        access_token = crypto.create_access_token user.id;
        refresh_token = token';
        user = m;
      },
      rw e refl,
    )

-- The token that a refresh issues works: where no session had it before, a refresh with it returns as long as the new
-- session has not expired.
pub refresh_rotates :
    (crypto : Crypto) (now ttl now' ttl' : ℕ) (token refresh_token token' : String)
    (r : AuthTokenResponse) (db db' : Db)
    → refresh crypto now ttl token refresh_token db ≡ ok (r, db')
    → session_of crypto token db ≡ none
    → now' < now + ttl
    → (r' : AuthTokenResponse) × (db'' : Db) × (refresh crypto now' ttl' token' token db'
        ≡ ok (r', db''))
refresh_rotates crypto now ttl now' ttl' token refresh_token token' r db db' k fresh early =
    let (s, user, e, _, u, b, d) = refresh-inv crypto now ttl token refresh_token r db db' k in
    let (r', b') = build-token crypto user token token' r b in
    let same = ensure-same (owner s db) user u in
    let id : user.id ≡ s.user_id =
      ==→eq user.id s.user_id (find_sound (λ x. x.id == s.user_id) db.users user same) in
    let new = new_session crypto user.id token (now + ttl) db.next_id in
    let db₁ = after crypto now ttl token refresh_token s db user in
    let f : session_of crypto token db₁ ≡ some new =
      find-append_none (has_token crypto token) (spend now s db.sessions) (new ∷ []) (
        find-update-none (has_token crypto token) (λ x. x.id == s.id) (revoked_session now)
          (update (λ x. x.id == s.id) (touched_session now) db.sessions) (λ x. refl)
          (find-update-none (has_token crypto token) (λ x. x.id == s.id) (touched_session now)
            db.sessions (λ x. refl) fresh))
      ∙ rw (eq_refl (crypto.hash_refresh_token token)) refl in
    let live : is_spent now' new ≡ false = ground arith in
    let u' : ensure_user_can_authenticate (owner new db₁) ≡ ok user = rw id u in
    subst
      (λ x.
        (r'' : AuthTokenResponse) × (db'' : Db) × (refresh crypto now' ttl' token' token x
          ≡ ok (r'', db'')))
      d
      (
        r',
        after crypto now' ttl' token' token new db₁ user,
        accepted crypto now' ttl' token' token new db₁ f live user u' ∙ rw b' refl,
      )
