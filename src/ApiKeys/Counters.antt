-- ===== src/ApiKeys/Counters.antt =====
-- `enforce_limits` of app/services/api_key_service.py, on Redis counters. A counter's name holds its time bucket, and
-- its time to live is longer than the bucket, so a counter does not expire while it is counted.
use document_generation_anek.Prelude.{
  ℕ, ◌+◌, ◌*◌, Bool, true, false, ◌&&◌, List, [], ◌∷◌, ltb, ◌==◌, if◌then◌else◌,
}
use document_generation_anek.Result.{Result, ok, err, too_many_requests}

pub data Window : Type 0 where
  minute day : Window

pub data Scope : Type 0 where
  key organization : Scope

-- `api-key:<window>:<scope>:<id>:<bucket>`
pub record CounterKey : Type 0 where
  pub window : Window
  pub scope : Scope
  pub id : ℕ
  pub bucket : ℕ

abbrev pub same_window : Window → Window → Bool
same_window minute minute = true
same_window minute day = false
same_window day minute = false
same_window day day = true

abbrev pub same_scope : Scope → Scope → Bool
same_scope key key = true
same_scope key organization = false
same_scope organization key = false
same_scope organization organization = true

abbrev pub same_key : CounterKey → CounterKey → Bool
same_key a b =
    same_window a.window b.window
    && same_scope a.scope b.scope
    && a.id == b.id
    && a.bucket == b.bucket

pub record Counter : Type 0 where
  pub name : CounterKey
  pub value : ℕ
  pub ttl : ℕ

abbrev pub Redis : Type 0
Redis = List Counter

abbrev pub count_of : CounterKey → Redis → ℕ
count_of k [] = 0
count_of k (c ∷ counters) = if same_key c.name k then c.value else count_of k counters

-- INCR, and EXPIRE when the result is 1
unfoldable pub incr : CounterKey → ℕ → Redis → Redis
incr k ttl [] = record { name = k; value = 1; ttl = ttl } ∷ []
incr k ttl (c ∷ counters) =
    let rest = incr k ttl counters in
    if same_key c.name k then record c { value = c.value + 1 } ∷ counters else c ∷ rest

-- ApiKeyService._increment_and_check: a counter that was raised stays raised when the check fails
unfoldable pub increment_and_check : CounterKey → ℕ → ℕ → Redis → Result (Unit {0}) × Redis
unfolding incr
increment_and_check k limit ttl redis =
    if limit == 0
    then (ok tt, redis)
    else (let after = incr k ttl redis in
        (if ltb limit (count_of k after) then (err too_many_requests, after) else (ok tt, after)))

pub record Limits : Type 0 where
  pub requests_per_minute_per_key : ℕ
  pub requests_per_minute_per_org : ℕ
  pub requests_per_day_per_key : ℕ
  pub requests_per_day_per_org : ℕ

-- one call: the key, its organization, and the minute and day of the clock
pub record Request : Type 0 where
  pub api_key_id : ℕ
  pub organization_id : ℕ
  pub minute_bucket : ℕ
  pub day_bucket : ℕ

abbrev pub Check : Type 0
Check = CounterKey × ℕ × ℕ

-- the four checks of `enforce_limits`, in its order, with their limits and times to live
unfoldable pub checks : Limits → Request → List Check
checks limits r =
    (
      record { window = minute; scope = key; id = r.api_key_id; bucket = r.minute_bucket },
      limits.requests_per_minute_per_key,
      90,
    )
    ∷ (
      record {
        window = minute;
        scope = organization;
        id = r.organization_id;
        bucket = r.minute_bucket;
      },
      limits.requests_per_minute_per_org,
      90,
    )
    ∷ (
      record { window = day; scope = key; id = r.api_key_id; bucket = r.day_bucket },
      limits.requests_per_day_per_key,
      60 * 60 * 25,
    )
    ∷ (
      record { window = day; scope = organization; id = r.organization_id; bucket = r.day_bucket },
      limits.requests_per_day_per_org,
      60 * 60 * 25,
    )
    ∷ []

-- one check after the other, up to the first that raises
abbrev pub on_ok :
    Result (Unit {0}) × Redis → (Redis → Result (Unit {0}) × Redis) → Result (Unit {0}) × Redis
on_ok (ok u, redis) next = next redis
on_ok (err e, redis) next = (err e, redis)

unfoldable pub run_checks : List Check → Redis → Result (Unit {0}) × Redis
unfolding increment_and_check
run_checks [] redis = (ok tt, redis)
run_checks ((k, limit, ttl) ∷ cs) redis =
    on_ok (increment_and_check k limit ttl redis) (run_checks cs)

unfoldable pub enforce_limits : Limits → Request → Redis → Result (Unit {0}) × Redis
unfolding checks run_checks
enforce_limits limits r = run_checks (checks limits r)
