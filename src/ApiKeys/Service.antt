-- ===== src/ApiKeys/Service.antt =====
-- app/services/api_key_service.py and its repositories. `hash_api_key` (SHA-256) is a parameter; the generated key, its
-- hash and the time are arguments.
use Prim.Native.String.{String, compare}
use text.Mathlib.Text.{◌==◌ as str_eq, is_le}
use mathlib.Core.List.{reverse}
use document_generation_anek.Prelude.{
  ℕ, suc, Bool, true, not, ◌&&◌, Option, none, some, List, [], ◌∷◌, ◌++◌, any, find, select, take,
  update, sort_by, ◌==◌, is_some, if◌then◌else◌,
}
use document_generation_anek.Models.{
  Organization, ApiKey, ApiKeyUsageLog, api_key_created, api_key_rotated, api_key_revoked,
  api_key_disabled,
}
use document_generation_anek.Result.{Result, ok, err, not_found, authentication, authorization}
use document_generation_anek.Database.{Db, Tx, pure, gets, modify, lift, or_raise, ◌>>=◌, ◌>>◌}
use document_generation_anek.Access.{organization_active}
use document_generation_anek.Audit.{log_event}
use document_generation_anek.Text.{Text, is_space, strip}
use document_generation_anek.ApiKeys.Counters.{Redis, Limits, enforce_limits}

pub record ApiKeyPrincipal : Type 0 where
  pub api_key_id : ℕ
  pub organization_id : ℕ
  pub scopes : List String
  pub key_prefix : Text
  pub scope : String

-- ApiKeyPrincipal.has_scope
abbrev pub has_scope : ApiKeyPrincipal → String → Bool
has_scope p scope = any (λ s. str_eq s scope) p.scopes

-- app/core/auth.py: api_key_prefix
abbrev pub api_key_prefix : Text → Text
api_key_prefix key = take 12 key

-- ApiKeyRepository
abbrev pub in_organization : Option ℕ → ApiKey → Bool
in_organization none k = true
in_organization (some o) k = k.organization_id == o

unfoldable pub key_by_id : ℕ → Option ℕ → Tx (Option ApiKey)
key_by_id api_key_id organization_id =
    gets λ db. find (λ k. k.id == api_key_id && in_organization organization_id k) db.api_keys

unfoldable pub key_by_hash : String → Tx (Option ApiKey)
key_by_hash hash = gets λ db. find (λ k. str_eq k.hashed_key hash) db.api_keys

-- newest first
unfoldable pub keys_of : ℕ → Tx (List ApiKey)
keys_of organization_id =
    gets λ db. reverse (select (λ k. k.organization_id == organization_id) db.api_keys)

abbrev pub save_key : (ApiKey → ApiKey) → ApiKey → Tx ApiKey
save_key f key db =
    pure (f key) (record db { api_keys = update (λ k. k.id == key.id) f db.api_keys })

unfoldable pub revoked_key : ℕ → ApiKey → ApiKey
revoked_key now k = record k { status = "revoked"; revoked_at = some now }

unfoldable pub key_with_status : String → ApiKey → ApiKey
key_with_status status k = record k {
  status = status;
  revoked_at = if str_eq status "revoked" then k.revoked_at else none;
}

unfoldable pub rotated_key : Text → String → ℕ → ApiKey → ApiKey
rotated_key key_prefix hashed_key now k = record k {
  key_prefix = key_prefix;
  hashed_key = hashed_key;
  rotated_at = some now;
  status = "active";
  revoked_at = none;
  last_used_at = none;
}

unfoldable pub touched_key : ℕ → ApiKey → ApiKey
touched_key now k = record k { last_used_at = some now }

unfoldable pub revoke : ℕ → ApiKey → Tx ApiKey
unfolding revoked_key
revoke now = save_key (revoked_key now)

unfoldable pub set_status : String → ApiKey → Tx ApiKey
unfolding key_with_status
set_status status = save_key (key_with_status status)

unfoldable pub rotate : Text → String → ℕ → ApiKey → Tx ApiKey
unfolding rotated_key
rotate key_prefix hashed_key now = save_key (rotated_key key_prefix hashed_key now)

unfoldable pub touch : ℕ → ApiKey → Tx ApiKey
unfolding touched_key
touch now = save_key (touched_key now)

unfoldable pub create_key : ApiKey → Tx ApiKey
create_key key db =
    pure (record key { id = db.next_id })
      (record db {
        next_id = suc db.next_id;
        api_keys = db.api_keys ++ record key { id = db.next_id } ∷ [];
      })

-- ApiKeyUsageLogRepository
unfoldable pub create_usage_log : ApiKeyUsageLog → Tx (Unit {0})
create_usage_log entry = modify λ db. record db { usage_logs = db.usage_logs ++ entry ∷ [] }

abbrev pub of_key : Option ℕ → ApiKeyUsageLog → Bool
of_key none l = true
of_key (some k) l = l.api_key_id == k

unfoldable pub list_usage_logs : ℕ → Option ℕ → ℕ → Tx (List ApiKeyUsageLog)
list_usage_logs organization_id api_key_id limit = gets λ db. take limit (
    reverse
      (select (λ l. l.organization_id == organization_id && of_key api_key_id l) db.usage_logs))

-- ApiKeyService.create_api_key: the plaintext key is returned once, only its hash is stored
unfoldable pub create_api_key :
    (Text → String) → Text → ℕ → String → List String → ℕ → Tx (Text × ApiKey)
unfolding create_key log_event
create_api_key hash_api_key plaintext organization_id name scopes current_user_id = do
  organization ← gets (λ db. find (λ o. o.id == organization_id) db.organizations)
  or_raise organization not_found
  api_key ← create_key (record {
    id = 0;
    organization_id = organization_id;
    name = name;
    key_prefix = api_key_prefix plaintext;
    hashed_key = hash_api_key plaintext;
    scopes = scopes;
    status = "active";
    rotated_at = none;
    last_used_at = none;
    revoked_at = none;
  })
  log_event organization_id (some current_user_id) api_key_created (some api_key.id)
  pure (plaintext, api_key)

unfoldable pub rotate_api_key : (Text → String) → Text → ℕ → ℕ → ℕ → ℕ → Tx (Text × ApiKey)
unfolding key_by_id rotate log_event
rotate_api_key hash_api_key plaintext now organization_id api_key_id current_user_id = do
  found ← key_by_id api_key_id (some organization_id)
  api_key ← or_raise found not_found
  rotated ← rotate (api_key_prefix plaintext) (hash_api_key plaintext) now api_key
  log_event organization_id (some current_user_id) api_key_rotated (some rotated.id)
  pure (plaintext, rotated)

unfoldable pub revoke_api_key : ℕ → ℕ → ℕ → ℕ → Tx ApiKey
unfolding key_by_id revoke log_event
revoke_api_key now organization_id api_key_id current_user_id = do
  found ← key_by_id api_key_id (some organization_id)
  api_key ← or_raise found not_found
  revoked ← revoke now api_key
  log_event organization_id (some current_user_id) api_key_revoked (some revoked.id)
  pure revoked

unfoldable pub disable_api_key : ℕ → ℕ → ℕ → Tx ApiKey
unfolding key_by_id set_status log_event
disable_api_key organization_id api_key_id current_user_id = do
  found ← key_by_id api_key_id (some organization_id)
  api_key ← or_raise found not_found
  disabled ← set_status "disabled" api_key
  log_event organization_id (some current_user_id) api_key_disabled (some disabled.id)
  pure disabled

-- active, not revoked, and of an organization that is active
abbrev pub is_usable : List Organization → ApiKey → Bool
is_usable organizations k =
    str_eq k.status "active"
    && not (is_some k.revoked_at)
    && organization_active (find (λ o. o.id == k.organization_id) organizations)

abbrev pub principal_of : String → ApiKey → ApiKeyPrincipal
principal_of required_scope k = record {
  api_key_id = k.id;
  organization_id = k.organization_id;
  scopes = sort_by (λ s t. is_le (compare s t)) k.scopes;
  key_prefix = k.key_prefix;
  scope = required_scope;
}

abbrev pub resolved : String → List Organization → Option ApiKey → Result ApiKeyPrincipal
resolved required_scope organizations none = err authentication
resolved required_scope organizations (some k) =
    if is_usable organizations k then ok (principal_of required_scope k) else err authentication

-- ApiKeyService.resolve_api_key_principal
unfoldable pub resolve_api_key_principal : (Text → String) → Text → String → Tx ApiKeyPrincipal
unfolding key_by_hash
resolve_api_key_principal hash_api_key raw_key required_scope = do
  found ← key_by_hash (hash_api_key (strip is_space raw_key))
  organizations ← gets (λ db. db.organizations)
  lift (resolved required_scope organizations found)

-- the end of `authenticate_api_key`: the limits are counted only for a key that has the scope
abbrev pub limited : ApiKeyPrincipal → Result (Unit {0}) × Redis → Result ApiKeyPrincipal × Redis
limited p (ok u, redis) = (ok p, redis)
limited p (err e, redis) = (err e, redis)

unfoldable pub scoped :
    Limits → ℕ → ℕ → String → Redis → Result (ApiKeyPrincipal × Db) → Result ApiKeyPrincipal × Redis
unfolding enforce_limits
scoped limits minute_bucket day_bucket required_scope redis (err e) = (err e, redis)
scoped limits minute_bucket day_bucket required_scope redis (ok (p, db)) =
    if has_scope p required_scope
    then limited p (
        enforce_limits limits
          (record {
            api_key_id = p.api_key_id;
            organization_id = p.organization_id;
            minute_bucket = minute_bucket;
            day_bucket = day_bucket;
          })
          redis)
    else (err authorization, redis)

-- ApiKeyService.authenticate_api_key
unfoldable pub authenticate_api_key :
    (Text → String) → Limits → ℕ → ℕ → Text → String → Db → Redis → Result ApiKeyPrincipal × Redis
unfolding resolve_api_key_principal scoped
authenticate_api_key hash_api_key limits minute_bucket day_bucket raw_key required_scope db redis =
    scoped limits minute_bucket day_bucket required_scope redis
      (resolve_api_key_principal hash_api_key raw_key required_scope db)

unfoldable pub log_found : ApiKeyUsageLog → ℕ → Option ApiKey → Tx (Unit {0})
unfolding touch create_usage_log
log_found entry now none = pure tt
log_found entry now (some k) = do touch now k; create_usage_log entry

-- ApiKeyService.log_usage
unfoldable pub log_usage : ℕ → ApiKeyPrincipal → String → String → ℕ → Bool → Tx (Unit {0})
unfolding key_by_id log_found
log_usage now p method path status_code rate_limited = do
  found ← key_by_id p.api_key_id none
  log_found
      (record {
        api_key_id = p.api_key_id;
        organization_id = p.organization_id;
        scope = p.scope;
        method = method;
        path = path;
        status_code = status_code;
        rate_limited = rate_limited;
      })
      now found
