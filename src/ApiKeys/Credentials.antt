-- ===== src/ApiKeys/Credentials.antt =====
-- Which keys authenticate, and what revoking, disabling and rotating a key changes.
use Prim.Native.String.{String, compare}
use mathlib.Core.Path.{subst}
use text.Mathlib.Text.{◌==◌ as str_eq, is_le}
use text.Mathlib.TextPositions.{eq_refl}
use document_generation_anek.Prelude.{
  ℕ, ◌≡◌, refl, sym, ◌∙◌, true, false, ◌&&◌, Option, none, some, [], ◌∷◌, ◌++◌, All,
  find-update_lost, find-update_gained, find-and, any, any-sort_by, find, find-update, update, ◌==◌,
  ==-self, Option-cases, Bool-cases, inl, inr, if◌then◌else◌,
}
use document_generation_anek.Models.{
  ApiKey, AuditLog, AuditAction, api_key_revoked, api_key_disabled, api_key_rotated,
}
use document_generation_anek.Result.{Result, ok, err, authentication, authorization}
use document_generation_anek.Database.{Db, lift}
use document_generation_anek.Access.{organization_active}
use document_generation_anek.Audit.{log_event}
use document_generation_anek.Text.{Text, is_space, strip}
use document_generation_anek.ApiKeys.Counters.{Redis, Request, Limits, enforce_limits}
use document_generation_anek.ApiKeys.Service.{
  ApiKeyPrincipal, has_scope, api_key_prefix, key_by_id, key_by_hash, in_organization, revoked_key,
  key_with_status, rotated_key, revoke, set_status, rotate, is_usable, principal_of, resolved,
  resolve_api_key_principal, revoke_api_key, disable_api_key, rotate_api_key, limited, scoped,
  authenticate_api_key,
}

-- the key that a raw key leads to, and the key that an administrator names
abbrev pub by_raw : (Text → String) → Text → Db → Option ApiKey
by_raw hash_api_key raw_key db =
    find (λ k. str_eq k.hashed_key (hash_api_key (strip is_space raw_key))) db.api_keys

abbrev pub named : ℕ → ℕ → Db → Option ApiKey
named organization_id api_key_id db =
    find (λ k. k.id == api_key_id && in_organization (some organization_id) k) db.api_keys

resolve-lift :
    (hash_api_key : Text → String) (raw_key : Text) (scope : String) (db : Db)
    → resolve_api_key_principal hash_api_key raw_key scope db
      ≡ lift (resolved scope db.organizations (by_raw hash_api_key raw_key db)) db
unfolding resolve_api_key_principal key_by_hash
resolve-lift hash_api_key raw_key scope db = refl

unusable :
    (hash_api_key : Text → String) (raw_key : Text) (scope : String) (k : ApiKey) (db : Db)
    → by_raw hash_api_key raw_key db ≡ some k
    → is_usable db.organizations k ≡ false
    → resolve_api_key_principal hash_api_key raw_key scope db ≡ err authentication
unusable hash_api_key raw_key scope k db e h =
    resolve-lift hash_api_key raw_key scope db ∙ rw e (rw h refl)

-- an update of the named key, seen by its raw key
update-by_raw :
    (hash_api_key : Text → String) (raw_key : Text) (f : ApiKey → ApiKey) (k : ApiKey) (db : Db)
    → ((x : ApiKey) → (f x).hashed_key ≡ x.hashed_key)
    → by_raw hash_api_key raw_key db ≡ some k
    → find
        (λ x. str_eq x.hashed_key (hash_api_key (strip is_space raw_key)))
        (update (λ x. x.id == k.id) f db.api_keys)
      ≡ some (f k)
update-by_raw hash_api_key raw_key f k db same e =
    find-update (λ x. str_eq x.hashed_key (hash_api_key (strip is_space raw_key)))
      (λ x. x.id == k.id) f db.api_keys k (λ x. rw (same x) refl) e
    ∙ rw (==-self k.id) refl

-- the tables after one of the three calls
abbrev pub with_key : (ApiKey → ApiKey) → ApiKey → AuditLog → Db → Db
with_key f k entry db = record db {
  api_keys = update (λ x. x.id == k.id) f db.api_keys;
  audit = db.audit ++ entry ∷ [];
}

abbrev pub event : ℕ → ℕ → AuditAction → ℕ → AuditLog
event organization_id user_id action entity_id = record {
  organization_id = organization_id;
  user_id = some user_id;
  action = action;
  entity_id = some entity_id;
}

-- After a key is revoked, the raw key that leads to it is refused with an authentication error, for every scope.
pub revoke-resolve :
    (hash_api_key : Text → String) (raw_key : Text) (scope : String)
    (now organization_id current_user_id : ℕ) (k : ApiKey) (db : Db)
    → named organization_id k.id db ≡ some k
    → by_raw hash_api_key raw_key db ≡ some k
    → (r : ApiKey) × (db' : Db) × (revoke_api_key now organization_id k.id current_user_id db
        ≡ ok (r, db'))
      × (resolve_api_key_principal hash_api_key raw_key scope db' ≡ err authentication)
unfolding revoke_api_key key_by_id revoke log_event revoked_key
revoke-resolve hash_api_key raw_key scope now organization_id current_user_id k db n e = (
  revoked_key now k,
  with_key (revoked_key now) k (event organization_id current_user_id api_key_revoked k.id) db,
  rw n refl,
  unusable hash_api_key raw_key scope (revoked_key now k)
      (with_key (revoked_key now) k (event organization_id current_user_id api_key_revoked k.id) db)
      (update-by_raw hash_api_key raw_key (revoked_key now) k db (λ x. refl) e) refl,
)

-- After a key is disabled, the raw key that leads to it is refused with an authentication error, for every scope.
pub disable-resolve :
    (hash_api_key : Text → String) (raw_key : Text) (scope : String)
    (organization_id current_user_id : ℕ) (k : ApiKey) (db : Db)
    → named organization_id k.id db ≡ some k
    → by_raw hash_api_key raw_key db ≡ some k
    → (r : ApiKey) × (db' : Db) × (disable_api_key organization_id k.id current_user_id db
        ≡ ok (r, db'))
      × (resolve_api_key_principal hash_api_key raw_key scope db' ≡ err authentication)
unfolding disable_api_key key_by_id set_status log_event key_with_status
disable-resolve hash_api_key raw_key scope organization_id current_user_id k db n e = (
  key_with_status "disabled" k,
  with_key (key_with_status "disabled") k
      (event organization_id current_user_id api_key_disabled k.id) db,
  rw n refl,
  unusable hash_api_key raw_key scope (key_with_status "disabled" k)
      (with_key (key_with_status "disabled") k
        (event organization_id current_user_id api_key_disabled k.id) db)
      (update-by_raw hash_api_key raw_key (key_with_status "disabled") k db (λ x. refl) e) refl,
)

-- After a rotation, the new plaintext key authenticates as the same key, organization and scopes, and the old raw key is
-- refused. Assumed are the table's uniqueness of identifiers and of hashes, that no key has the new hash, that the
-- generated key has no blank at its ends, and that the key's organization is active.
pub rotate-resolve :
    (hash_api_key : Text → String) (raw_key plaintext : Text) (scope : String)
    (now current_user_id : ℕ) (k : ApiKey) (db : Db)
    → find (λ x. x.id == k.id) db.api_keys ≡ some k
    → All
        (λ x.
          str_eq x.hashed_key (hash_api_key (strip is_space raw_key)) ≡ true
          → (x.id == k.id) ≡ true)
        db.api_keys
    → strip is_space plaintext ≡ plaintext
    → by_raw hash_api_key plaintext db ≡ none
    → str_eq (hash_api_key plaintext) (hash_api_key (strip is_space raw_key)) ≡ false
    → organization_active (find (λ o. o.id == k.organization_id) db.organizations) ≡ true
    → (r : ApiKey) × (db' : Db) × (rotate_api_key hash_api_key plaintext now k.organization_id k.id
          current_user_id db
        ≡ ok ((plaintext, r), db'))
      × (resolve_api_key_principal hash_api_key plaintext scope db'
          ≡ ok (record (principal_of scope k) { key_prefix = api_key_prefix plaintext }, db'))
      × ((by_raw hash_api_key raw_key db' ≡ none)
          × (resolve_api_key_principal hash_api_key raw_key scope db' ≡ err authentication))
unfolding rotate_api_key key_by_id rotate log_event rotated_key
rotate-resolve hash_api_key raw_key plaintext scope now current_user_id k db i unique stripped fresh
      other active =
    let f = rotated_key (api_key_prefix plaintext) (hash_api_key plaintext) now in
    let db' = with_key f k (event k.organization_id current_user_id api_key_rotated k.id) db in
    let n : named k.organization_id k.id db ≡ some k =
      find-and (λ x. x.id == k.id) (in_organization (some k.organization_id)) db.api_keys k i
        (==-self k.organization_id) in
    let fresh' : find (λ x. str_eq x.hashed_key (hash_api_key plaintext)) db.api_keys ≡ none =
      subst (λ t. find (λ x. str_eq x.hashed_key (hash_api_key t)) db.api_keys ≡ none) stripped
        fresh in
    let new : by_raw hash_api_key plaintext db' ≡ some (f k) =
      subst
        (λ t.
          find (λ x. str_eq x.hashed_key (hash_api_key t))
            (update (λ x. x.id == k.id) f db.api_keys)
          ≡ some (f k))
        (sym stripped)
        (find-update_gained (λ x. str_eq x.hashed_key (hash_api_key plaintext)) (λ x. x.id == k.id)
          f db.api_keys k (λ x. eq_refl (hash_api_key plaintext)) fresh' i) in
    let old : by_raw hash_api_key raw_key db' ≡ none =
      find-update_lost (λ x. str_eq x.hashed_key (hash_api_key (strip is_space raw_key)))
        (λ x. x.id == k.id) f db.api_keys unique (λ x. other) in
    (
      f k,
      db',
      rw n refl,
      resolve-lift hash_api_key plaintext scope db' ∙ rw new (rw active refl),
      (old, resolve-lift hash_api_key raw_key scope db' ∙ rw old refl),
    )

module _ (hash_api_key : Text → String) (limits : Limits) (minute_bucket day_bucket : ℕ)
    (raw_key : Text) (scope : String) (db : Db) (redis : Redis) where
  abbrev attempt : Result ApiKeyPrincipal × Redis
  attempt = authenticate_api_key hash_api_key limits minute_bucket day_bucket raw_key scope db redis

  -- the request that the limits see
  abbrev pub request_of : ApiKey → Request
  request_of k = record {
    api_key_id = k.id;
    organization_id = k.organization_id;
    minute_bucket = minute_bucket;
    day_bucket = day_bucket;
  }

  unknown_key : by_raw hash_api_key raw_key db ≡ none → attempt ≡ (err authentication, redis)
  unfolding authenticate_api_key resolve_api_key_principal key_by_hash scoped
  unknown_key e = rw e refl

  unusable_key :
      (k : ApiKey)
      → by_raw hash_api_key raw_key db ≡ some k
      → is_usable db.organizations k ≡ false
      → attempt ≡ (err authentication, redis)
  unfolding authenticate_api_key resolve_api_key_principal key_by_hash scoped
  unusable_key k e u = rw e (rw u refl)

  usable_key :
      (k : ApiKey)
      → by_raw hash_api_key raw_key db ≡ some k
      → is_usable db.organizations k ≡ true
      → attempt ≡ (
          if has_scope (principal_of scope k) scope
          then limited (principal_of scope k) (enforce_limits limits (request_of k) redis)
          else (err authorization, redis))
  unfolding authenticate_api_key resolve_api_key_principal key_by_hash scoped
  usable_key k e u = rw e (rw u refl)

limited-ok :
    (p q : ApiKeyPrincipal) (r : Result (Unit {0}) × Redis) (redis' : Redis)
    → limited p r ≡ (ok q, redis')
    → (q ≡ p) × (r ≡ (ok tt, redis'))
limited-ok p q (ok u, redis) redis' h = (cc, cc)
limited-ok p q (err e, redis) redis' h = absurd (cc)

-- A request that authenticates has a key that is active, not revoked and of an active organization; the key has the
-- required scope, the principal is that key and its organization, and the rate limits let the request through.
pub authenticate_checks :
    (hash_api_key : Text → String) (limits : Limits) (minute_bucket day_bucket : ℕ) (raw_key : Text)
    (scope : String) (p : ApiKeyPrincipal) (db : Db) (redis redis' : Redis)
    → authenticate_api_key hash_api_key limits minute_bucket day_bucket raw_key scope db redis
      ≡ (ok p, redis')
    → (k : ApiKey) × (by_raw hash_api_key raw_key db ≡ some k)
      × (is_usable db.organizations k ≡ true)
      × (any (λ s. str_eq s scope) k.scopes ≡ true)
      × (p ≡ principal_of scope k)
      × (enforce_limits limits
            (record {
              api_key_id = k.id;
              organization_id = k.organization_id;
              minute_bucket = minute_bucket;
              day_bucket = day_bucket;
            })
            redis
          ≡ (ok tt, redis'))
authenticate_checks hash_api_key limits minute_bucket day_bucket raw_key scope p db redis redis' h =
    let step = usable_key hash_api_key limits minute_bucket day_bucket raw_key scope db redis in
    elim (Option-cases (by_raw hash_api_key raw_key db)) [
      | inl n ↦
          absurd
            (cc (unknown_key hash_api_key limits minute_bucket day_bucket raw_key scope db redis n))
      | inr (k, e) ↦ elim (Bool-cases (is_usable db.organizations k)) [
        | inr u ↦ absurd (
            cc (
              unusable_key hash_api_key limits minute_bucket day_bucket raw_key scope db redis k e
                u))
        | inl u ↦ elim (Bool-cases (has_scope (principal_of scope k) scope)) [
          | inr s ↦ let g = sym (step k e u) ∙ h in let b = rw s at g in absurd (cc b)
          | inl s ↦
              let g = sym (step k e u) ∙ h in
              let b = rw s at g in
              let (same, passes) = limited-ok (principal_of scope k) p _ redis' b in
              (
                k,
                e,
                u,
                sym (any-sort_by (λ x y. is_le (compare x y)) (λ x. str_eq x scope) k.scopes) ∙ s,
                same,
                passes,
              )
        ]
      ]
    ]
