-- ===== src/ApiKeys/Quota.antt =====
-- What the rate limits guarantee over a run of requests.
use document_generation_anek.Prelude.{
  ℕ, ◌+◌, ◌-◌, ◌≤◌, ◌<◌, ◌≡◌, refl, Bool, true, false, ◌&&◌, ◌||◌, List, [], ◌∷◌, ◌==◌, ==→eq,
  ==-self, both-true, if◌then◌else◌, arith,
}
use document_generation_anek.Result.{Result, ok, err}
use document_generation_anek.ApiKeys.Counters.{
  minute, day, key, organization, CounterKey, same_key, Redis, count_of, increment_and_check,
  Limits, Request, Check, checks, on_ok, run_checks, enforce_limits,
}
use document_generation_anek.ApiKeys.Counting.{same_key→eq, mono_one, mono, passed, uses}

all_passed :
    (k : CounterKey) (limit : ℕ) (cs : List Check) (redis : Redis) (u : Unit {0})
    → 0 < limit
    → uses k limit cs ≡ true
    → (run_checks cs redis).0 ≡ ok u
    → (count_of k redis < limit) × (count_of k redis < count_of k (run_checks cs redis).1)
unfolding run_checks
all_passed k limit [] redis u positive h e = absurd (cc)
all_passed k limit ((j, n, ttl) ∷ cs) redis u positive h e =
    next (increment_and_check j n ttl redis) refl (same_key j k && n == limit) refl h e
      (λ r v. all_passed k limit cs r v positive)
  where
    next :
        (step : Result (Unit {0}) × Redis)
        → increment_and_check j n ttl redis ≡ step
        → (b : Bool) → (same_key j k && n == limit) ≡ b
        → (b || uses k limit cs) ≡ true
        → (on_ok step (run_checks cs)).0 ≡ ok u
        → ((r : Redis) (v : Unit {0})
            → uses k limit cs ≡ true
            → (run_checks cs r).0 ≡ ok v
            → (count_of k r < limit) × (count_of k r < count_of k (run_checks cs r).1))
        → (count_of k redis < limit)
          × (count_of k redis < count_of k (on_ok step (run_checks cs)).1)
    next (err x, r) same b hb hu he rec = absurd (cc)
    next (ok v, r) same true hb hu he rec =
        let (hk, hn) = both-true (same_key j k) (n == limit) hb in
        let qk = same_key→eq j k hk in
        let qn = ==→eq n limit hn in
        let m = mono k cs r in
        let step : increment_and_check k limit ttl redis ≡ (ok v, r) = rw (← qk, ← qn) same in
        let (below, up) = passed k limit ttl redis v positive (rw step refl) in
        let up' : count_of k redis < count_of k r = rw step at up in (below, omega arith)
    next (ok v, r) same false hb hu he rec =
        let (below, up) = rec r u hu he in
        let m = mono_one j k n ttl redis in
        let m' : count_of k redis ≤ count_of k r = rw same at m in (omega arith, omega arith)

abbrev pub is_ok : Result (Unit {0}) → Bool
is_ok (ok u) = true
is_ok (err e) = false

-- the requests of a run that are let through and satisfy `p`
unfoldable pub accepted : Limits → (Request → Bool) → List Request → Redis → ℕ
unfolding enforce_limits
accepted limits p [] redis = 0
accepted limits p (r ∷ rs) redis =
    let (result, redis') = enforce_limits limits r redis in
    (if is_ok result && p r then 1 else 0) + accepted limits p rs redis'

within :
    (limits : Limits) (p : Request → Bool) (k : CounterKey) (limit : ℕ)
    → 0 < limit
    → ((r : Request) → p r ≡ true → uses k limit (checks limits r) ≡ true)
    → (rs : List Request) (redis : Redis) → accepted limits p rs redis ≤ limit - count_of k redis
unfolding accepted enforce_limits
within limits p k limit positive used [] redis = omega arith
within limits p k limit positive used (r ∷ rs) redis =
    let after = (run_checks (checks limits r) redis).1 in
    let ih = within limits p k limit positive used rs after in
    let m = mono k (checks limits r) redis in
    step (run_checks (checks limits r) redis).0 refl (p r) refl ih m
  where
    step :
        (result : Result (Unit {0}))
        → (run_checks (checks limits r) redis).0 ≡ result
        → (b : Bool) → p r ≡ b
        → accepted limits p rs (run_checks (checks limits r) redis).1
          ≤ limit - count_of k (run_checks (checks limits r) redis).1
        → count_of k redis ≤ count_of k (run_checks (checks limits r) redis).1
        → (if is_ok result && b then 1 else 0)
            + accepted limits p rs (run_checks (checks limits r) redis).1
          ≤ limit - count_of k redis
    step (err e) same b hb ih m = omega arith
    step (ok u) same false hb ih m = omega arith
    step (ok u) same true hb ih m =
        let (below, up) = all_passed k limit (checks limits r) redis u positive (used r hb) same in
        omega arith

uses_minute_key :
    (limits : Limits) (id bucket : ℕ) (r : Request)
    → (r.api_key_id == id && r.minute_bucket == bucket) ≡ true
    → uses
        (record { window = minute; scope = key; id = id; bucket = bucket })
        limits.requests_per_minute_per_key
        (checks limits r)
      ≡ true
unfolding checks
uses_minute_key limits id bucket r h = rw (h, ==-self limits.requests_per_minute_per_key) refl

uses_minute_org :
    (limits : Limits) (id bucket : ℕ) (r : Request)
    → (r.organization_id == id && r.minute_bucket == bucket) ≡ true
    → uses
        (record { window = minute; scope = organization; id = id; bucket = bucket })
        limits.requests_per_minute_per_org
        (checks limits r)
      ≡ true
unfolding checks
uses_minute_org limits id bucket r h = rw (h, ==-self limits.requests_per_minute_per_org) refl

uses_day_key :
    (limits : Limits) (id bucket : ℕ) (r : Request)
    → (r.api_key_id == id && r.day_bucket == bucket) ≡ true
    → uses
        (record { window = day; scope = key; id = id; bucket = bucket })
        limits.requests_per_day_per_key
        (checks limits r)
      ≡ true
unfolding checks
uses_day_key limits id bucket r h = rw (h, ==-self limits.requests_per_day_per_key) refl

uses_day_org :
    (limits : Limits) (id bucket : ℕ) (r : Request)
    → (r.organization_id == id && r.day_bucket == bucket) ≡ true
    → uses
        (record { window = day; scope = organization; id = id; bucket = bucket })
        limits.requests_per_day_per_org
        (checks limits r)
      ≡ true
unfolding checks
uses_day_org limits id bucket r h = rw (h, ==-self limits.requests_per_day_per_org) refl

-- Where all four limits are positive: of any sequence of requests, on any state of the counters, no more than the
-- limits are let through for one key in one minute and in one day, and for one organization in one minute and in one day.
pub quotas :
    (limits : Limits) (api_key_id organization_id minute_bucket day_bucket : ℕ)
    (requests : List Request) (redis : Redis)
    → 0 < limits.requests_per_minute_per_key
    → 0 < limits.requests_per_minute_per_org
    → 0 < limits.requests_per_day_per_key
    → 0 < limits.requests_per_day_per_org
    → (accepted limits
          (λ r. r.api_key_id == api_key_id && r.minute_bucket == minute_bucket)
          requests
          redis
        ≤ limits.requests_per_minute_per_key)
      × (accepted limits
            (λ r. r.organization_id == organization_id && r.minute_bucket == minute_bucket)
            requests
            redis
          ≤ limits.requests_per_minute_per_org)
      × (accepted limits
            (λ r. r.api_key_id == api_key_id && r.day_bucket == day_bucket)
            requests
            redis
          ≤ limits.requests_per_day_per_key)
      × (accepted limits
            (λ r. r.organization_id == organization_id && r.day_bucket == day_bucket)
            requests
            redis
          ≤ limits.requests_per_day_per_org)
quotas limits k o m d requests redis a b c e =
    let w₁ =
      within limits (λ r. r.api_key_id == k && r.minute_bucket == m)
        (record { window = minute; scope = key; id = k; bucket = m })
        limits.requests_per_minute_per_key a (uses_minute_key limits k m) requests redis in
    let w₂ =
      within limits (λ r. r.organization_id == o && r.minute_bucket == m)
        (record { window = minute; scope = organization; id = o; bucket = m })
        limits.requests_per_minute_per_org b (uses_minute_org limits o m) requests redis in
    let w₃ =
      within limits (λ r. r.api_key_id == k && r.day_bucket == d)
        (record { window = day; scope = key; id = k; bucket = d }) limits.requests_per_day_per_key c
        (uses_day_key limits k d) requests redis in
    let w₄ =
      within limits (λ r. r.organization_id == o && r.day_bucket == d)
        (record { window = day; scope = organization; id = o; bucket = d })
        limits.requests_per_day_per_org e (uses_day_org limits o d) requests redis in
    (omega (w₁, arith), omega (w₂, arith), omega (w₃, arith), omega (w₄, arith))
