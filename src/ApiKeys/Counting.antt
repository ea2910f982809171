-- ===== src/ApiKeys/Counting.antt =====
-- What one check does to the counters.
use mathlib.Core.Path.{subst}
use document_generation_anek.Prelude.{
  ℕ, suc, ◌≤◌, ◌<◌, ◌≡◌, refl, sym, Bool, true, false, ◌&&◌, List, [], ◌∷◌, any, ltb, ◌==◌, ==→eq,
  ==-self, both-true, Bool-cases, inl, inr, arith,
}
use document_generation_anek.Result.{Result, ok, err}
use document_generation_anek.ApiKeys.Counters.{
  Window, minute, day, Scope, key, organization, CounterKey, same_window, same_scope, same_key,
  Redis, count_of, incr, increment_and_check, Check, on_ok, run_checks,
}

same_window_self : (w : Window) → same_window w w ≡ true
same_window_self minute = refl
same_window_self day = refl

same_scope_self : (s : Scope) → same_scope s s ≡ true
same_scope_self key = refl
same_scope_self organization = refl

same_window→eq : (a b : Window) → same_window a b ≡ true → a ≡ b
same_window→eq minute minute h = refl
same_window→eq minute day h = absurd (cc)
same_window→eq day minute h = absurd (cc)
same_window→eq day day h = refl

same_scope→eq : (a b : Scope) → same_scope a b ≡ true → a ≡ b
same_scope→eq key key h = refl
same_scope→eq key organization h = absurd (cc)
same_scope→eq organization key h = absurd (cc)
same_scope→eq organization organization h = refl

same_key_self : (k : CounterKey) → same_key k k ≡ true
same_key_self k =
    rw (same_window_self k.window, same_scope_self k.scope, ==-self k.id, ==-self k.bucket) refl

pub same_key→eq : (a b : CounterKey) → same_key a b ≡ true → a ≡ b
same_key→eq a b h =
    let (f, bucket) =
      both-true (same_window a.window b.window && same_scope a.scope b.scope && a.id == b.id)
        (a.bucket == b.bucket) h in
    let (g, i) =
      both-true (same_window a.window b.window && same_scope a.scope b.scope) (a.id == b.id) f in
    let (w, s) = both-true (same_window a.window b.window) (same_scope a.scope b.scope) g in
    let ew = same_window→eq a.window b.window w in
    let es = same_scope→eq a.scope b.scope s in
    let ei = ==→eq a.id b.id i in
    let eb = ==→eq a.bucket b.bucket bucket in
    λ t. record { window = ew t; scope = es t; id = ei t; bucket = eb t }

-- one INCR, as the counter itself and as another counter sees it
count-incr :
    (k : CounterKey) (ttl : ℕ) (redis : Redis)
    → count_of k (incr k ttl redis) ≡ suc (count_of k redis)
unfolding incr
count-incr k ttl [] = rw (same_key_self k) refl
count-incr k ttl (c ∷ redis) =
    let ih = count-incr k ttl redis in
    elim (Bool-cases (same_key c.name k)) [
      | inl h ↦ rw h (rw h (omega arith))
      | inr h ↦ rw h (rw h ih)
    ]

count-incr_other :
    (j k : CounterKey) (ttl : ℕ) (redis : Redis)
    → same_key j k ≡ false
    → count_of k (incr j ttl redis) ≡ count_of k redis
unfolding incr
count-incr_other j k ttl [] n = rw n refl
count-incr_other j k ttl (c ∷ redis) n =
    let ih = count-incr_other j k ttl redis n in
    elim (Bool-cases (same_key c.name j)) [
      | inl h ↦
          let q : same_key c.name k ≡ false =
            subst (λ x. same_key x k ≡ false) (sym (same_key→eq c.name j h)) n in
          rw h (rw q refl)
      | inr h ↦ rw (h, ih) refl
    ]

-- a check only raises counters
pub mono_one :
    (j k : CounterKey) (limit ttl : ℕ) (redis : Redis)
    → count_of k redis ≤ count_of k (increment_and_check j limit ttl redis).1
unfolding increment_and_check
mono_one j k limit ttl redis =
    let up : count_of k redis ≤ count_of k (incr j ttl redis) = elim (Bool-cases (same_key j k)) [
      | inl h ↦ let q = same_key→eq j k h in rw q (rw (count-incr k ttl redis) (omega arith))
      | inr h ↦ rw (count-incr_other j k ttl redis h) (omega arith)
    ] in
    elim (Bool-cases (limit == 0)) [
      | inl z ↦ rw z (omega arith)
      | inr z ↦ elim (Bool-cases (ltb limit (count_of j (incr j ttl redis)))) [
        | inl l ↦ rw (z, l) up
        | inr l ↦ rw (z, l) up
      ]
    ]

pub mono :
    (k : CounterKey) (cs : List Check) (redis : Redis)
    → count_of k redis ≤ count_of k (run_checks cs redis).1
unfolding run_checks
mono k [] redis = omega arith
mono k ((j, limit, ttl) ∷ cs) redis =
    next (increment_and_check j limit ttl redis) (mono_one j k limit ttl redis) (λ r. mono k cs r)
  where
    next :
        (step : Result (Unit {0}) × Redis)
        → count_of k redis ≤ count_of k step.1
        → ((r : Redis) → count_of k r ≤ count_of k (run_checks cs r).1)
        → count_of k redis ≤ count_of k (on_ok step (run_checks cs)).1
    next (ok u, r) h rec = let m = rec r in omega arith
    next (err e, r) h rec = h

-- a passed check against a positive limit was below it, and has raised its counter
pub passed :
    (k : CounterKey) (limit ttl : ℕ) (redis : Redis) (u : Unit {0})
    → 0 < limit
    → (increment_and_check k limit ttl redis).0 ≡ ok u
    → (count_of k redis < limit)
      × (count_of k redis < count_of k (increment_and_check k limit ttl redis).1)
unfolding increment_and_check
passed k limit ttl redis u positive h =
    let z : (limit == 0) ≡ false = ground arith in
    let c = count-incr k ttl redis in
    elim (Bool-cases (ltb limit (count_of k (incr k ttl redis)))) [
      | inl l ↦ let b = rw (z, l) at h in absurd (cc b)
      | inr l ↦ rw (z, l) (ground arith, omega arith)
    ]

-- the checks compare the counter `k` with `limit`
abbrev pub uses : CounterKey → ℕ → List Check → Bool
uses k limit cs = any (λ c. same_key c.0 k && c.1 == limit) cs
