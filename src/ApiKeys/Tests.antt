-- ===== src/ApiKeys/Tests.antt =====
-- Examples of the API-key properties.
use Prim.Native.String.{String}
use text.Mathlib.Text.{◌==◌ as str_eq}
use document_generation_anek.Prelude.{
  ◌≤◌, ◌≡◌, refl, true, ◌&&◌, none, some, List, [], ◌∷◌, any, ◌==◌, arith, if◌then◌else◌,
}
use document_generation_anek.Models.{ApiKey}
use document_generation_anek.Result.{ok, err, authentication}
use document_generation_anek.Database.{Db}
use document_generation_anek.Text.{Text}
use document_generation_anek.Fixtures.{empty, acme}
use document_generation_anek.ApiKeys.Counters.{
  minute, day, key, organization, Limits, Request, Redis, enforce_limits, checks, run_checks,
  increment_and_check, incr,
}
use document_generation_anek.ApiKeys.Service.{
  ApiKeyPrincipal, api_key_prefix, is_usable, principal_of, resolve_api_key_principal,
  revoke_api_key, rotate_api_key, authenticate_api_key, key_by_hash, scoped,
}
use document_generation_anek.ApiKeys.Quota.{accepted, quotas}
use document_generation_anek.ApiKeys.Credentials.{
  by_raw, authenticate_checks, rotate-resolve, revoke-resolve,
}

-- a hash that tells the two keys of the examples apart
abbrev hash : Text → String
hash [] = "empty"
hash (c ∷ s) = if c == b'a' then "first" else "second"

abbrev api_key : ApiKey
api_key = record {
  id = 11;
  organization_id = 7;
  name = "ci";
  key_prefix = b'a' ∷ [];
  hashed_key = "first";
  scopes = "documents:read" ∷ [];
  status = "active";
  rotated_at = none;
  last_used_at = none;
  revoked_at = none;
}

abbrev keyed : Db
keyed = record empty { organizations = acme ∷ []; api_keys = api_key ∷ [] }

abbrev limits : Limits
limits = record {
  requests_per_minute_per_key = 2;
  requests_per_minute_per_org = 4;
  requests_per_day_per_key = 10;
  requests_per_day_per_org = 20;
}

abbrev call : Request
call = record { api_key_id = 11; organization_id = 7; minute_bucket = 1; day_bucket = 1 }

abbrev calls : List Request
calls = call ∷ call ∷ call ∷ []

abbrev no_counters : Redis
no_counters = []

third_refused :
    accepted limits (λ r. r.api_key_id == 11 && r.minute_bucket == 1) calls no_counters ≡ 2
unfolding accepted enforce_limits checks run_checks increment_and_check incr
third_refused = refl

quotas_example :
    (accepted limits (λ r. r.api_key_id == 11 && r.minute_bucket == 1) calls no_counters ≤ 2)
    × (accepted limits (λ r. r.organization_id == 7 && r.minute_bucket == 1) calls no_counters ≤ 4)
    × (accepted limits (λ r. r.api_key_id == 11 && r.day_bucket == 1) calls no_counters ≤ 10)
    × (accepted limits (λ r. r.organization_id == 7 && r.day_bucket == 1) calls no_counters ≤ 20)
quotas_example =
    quotas limits 11 7 1 1 calls no_counters (omega arith) (omega arith) (omega arith) (omega arith)

revoke-resolve_example :
    (r : ApiKey) × (db : Db) × (revoke_api_key 50 7 11 5 keyed ≡ ok (r, db))
    × (resolve_api_key_principal hash (b'a' ∷ []) "documents:read" db ≡ err authentication)
revoke-resolve_example =
    revoke-resolve hash (b'a' ∷ []) "documents:read" 50 7 5 api_key keyed refl refl

rotate-resolve_example :
    (r : ApiKey) × (db : Db) × (rotate_api_key hash (b'b' ∷ []) 50 7 11 5 keyed
      ≡ ok ((b'b' ∷ [], r), db))
    × (resolve_api_key_principal hash (b'b' ∷ []) "documents:read" db
        ≡ ok (
          record (principal_of "documents:read" api_key) {
            key_prefix = api_key_prefix (b'b' ∷ []);
          },
          db,
        ))
    × ((by_raw hash (b'a' ∷ []) db ≡ none)
        × (resolve_api_key_principal hash (b'a' ∷ []) "documents:read" db ≡ err authentication))
rotate-resolve_example =
    rotate-resolve hash (b'a' ∷ []) (b'b' ∷ []) "documents:read" 50 5 api_key keyed refl
      ((λ h. refl), tt) refl refl refl refl

abbrev principal : ApiKeyPrincipal
principal = principal_of "documents:read" api_key

abbrev counted : Redis
counted =
    record {
      name = record { window = minute; scope = key; id = 11; bucket = 1 };
      value = 1;
      ttl = 90;
    }
    ∷ record {
      name = record { window = minute; scope = organization; id = 7; bucket = 1 };
      value = 1;
      ttl = 90;
    }
    ∷ record {
      name = record { window = day; scope = key; id = 11; bucket = 1 };
      value = 1;
      ttl = 90000;
    }
    ∷ record {
      name = record { window = day; scope = organization; id = 7; bucket = 1 };
      value = 1;
      ttl = 90000;
    }
    ∷ []

authenticating :
    authenticate_api_key hash limits 1 1 (b'a' ∷ []) "documents:read" keyed no_counters
    ≡ (ok principal, counted)
unfolding authenticate_api_key resolve_api_key_principal key_by_hash scoped enforce_limits checks
    run_checks increment_and_check incr
authenticating = refl

authenticate_checks_example :
    (k : ApiKey) × (by_raw hash (b'a' ∷ []) keyed ≡ some k)
    × (is_usable keyed.organizations k ≡ true)
    × (any (λ s. str_eq s "documents:read") k.scopes ≡ true)
    × (principal ≡ principal_of "documents:read" k)
    × (enforce_limits limits
          (record {
            api_key_id = k.id;
            organization_id = k.organization_id;
            minute_bucket = 1;
            day_bucket = 1;
          })
          no_counters
        ≡ (ok tt, counted))
authenticate_checks_example =
    authenticate_checks hash limits 1 1 (b'a' ∷ []) "documents:read" principal keyed no_counters
      counted authenticating
