-- ===== src/Billing/Metering.antt =====
-- What the limit checks and the counters guarantee together.
use mathlib.Core.Path.{subst}
use document_generation_anek.Prelude.{
  ℕ, zero, suc, ◌+◌, ◌-◌, ◌≤◌, ◌<◌, ◌≡◌, refl, ap, ◌∙◌, ◌⊎◌, inl, inr, true, Option, some, List, [],
  ◌∷◌, arith, or_else, find, find-update, update, ==-self, ◌==◌, ltb, leb, Bool-cases,
  if◌then◌else◌,
}
use document_generation_anek.Prelude.Int.{pos, neg, add_clamped}
use document_generation_anek.Text.{Text, text_eq_self}
use document_generation_anek.Json.{Dict, get, put}
use document_generation_anek.Constructor.{DocumentBlock, signature_block_count}
use document_generation_anek.Models.{OrganizationUsageMeter}
use document_generation_anek.Result.{ok, err, conflict}
use document_generation_anek.Database.{Db, ◌>>◌, tx-inv}
use document_generation_anek.Billing.Store.{
  increment_generation, increment_premium_feature, adjust_storage_bytes, set_template_count,
  count_templates,
}
use document_generation_anek.Billing.Snapshot.{BillingSnapshot}
use document_generation_anek.Billing.Limits.{
  signature_feature, check_generation, count_generation, check_storage, count_storage,
  sync_templates, check_template_creation,
}

abbrev pub meter_in : Db → ℕ → Option OrganizationUsageMeter
meter_in db id = find (λ r. r.id == id) db.meters

-- the units of a premium feature that a meter has counted
abbrev pub used : Text → Dict ℕ → ℕ
used key d = or_else (get key d) 0

used-put : (key : Text) (n : ℕ) (d : Dict ℕ) → used key (put key n d) ≡ n
used-put key n [] = rw (text_eq_self key) refl
used-put key n ((j, w) ∷ d) = ground (arith, used-put key n d)

-- a write to the meter, seen by the next query
meter_in-save :
    (f : OrganizationUsageMeter → OrganizationUsageMeter) (m : OrganizationUsageMeter)
    (meters : List OrganizationUsageMeter)
    → ((x : OrganizationUsageMeter) → (f x).id ≡ x.id)
    → find (λ r. r.id == m.id) meters ≡ some m
    → find (λ r. r.id == m.id) (update (λ r. r.id == m.id) f meters) ≡ some (f m)
meter_in-save f m meters same h =
    find-update (λ r. r.id == m.id) (λ r. r.id == m.id) f meters m
      (λ x. ap (λ i. i == m.id) (same x)) h
    ∙ rw (==-self m.id) refl

-- the meter after an accepted generation request
abbrev pub counted : List DocumentBlock → OrganizationUsageMeter → OrganizationUsageMeter
counted blocks m =
    if ltb 0 (signature_block_count blocks)
    then record m {
      generation_count = m.generation_count + 1;
      premium_feature_usage =
          put signature_feature
            (used signature_feature m.premium_feature_usage + signature_block_count blocks)
            m.premium_feature_usage;
    }
    else record m { generation_count = m.generation_count + 1 }

count_generation-counted :
    (blocks : List DocumentBlock) (s : BillingSnapshot) (db : Db)
    → meter_in db s.usage_meter.id ≡ some s.usage_meter
    → (db' : Db) × (count_generation blocks s db ≡ ok (tt, db'))
      × (meter_in db' s.usage_meter.id ≡ some (counted blocks s.usage_meter))
unfolding count_generation increment_generation increment_premium_feature
count_generation-counted blocks s db h =
    let id = s.usage_meter.id in
    let f =
      λ (m : OrganizationUsageMeter). record m { generation_count = m.generation_count + 1 } in
    let one = meter_in-save f s.usage_meter db.meters (λ x. refl) h in
    elim (Bool-cases (ltb 0 (signature_block_count blocks))) [
      | inr e ↦ (record db { meters = update (λ r. r.id == id) f db.meters }, rw e refl, rw e one)
      | inl e ↦
          let g = λ (m : OrganizationUsageMeter). record m {
            premium_feature_usage =
                put signature_feature
                  (used signature_feature m.premium_feature_usage + signature_block_count blocks)
                  m.premium_feature_usage;
          } in
          (
            record db {
              meters = update (λ r. r.id == id) g (update (λ r. r.id == id) f db.meters);
            },
            rw e refl,
            rw e (
                meter_in-save g (f s.usage_meter) (update (λ r. r.id == id) f db.meters) (λ x. refl)
                  one),
          )
    ]

check_generation-inv :
    (blocks : List DocumentBlock) (s : BillingSnapshot) (db d : Db)
    → check_generation blocks s db ≡ ok (tt, d)
    → (s.usage_meter.generation_count < s.plan.monthly_generation_cap)
      × ((s.plan.signature_support ≡ true) ⊎ (signature_block_count blocks ≡ 0))
      × (d ≡ db)
unfolding check_generation
check_generation-inv blocks s db d h = ground arith

counted_once :
    (blocks : List DocumentBlock) (m : OrganizationUsageMeter)
    → (counted blocks m).generation_count ≡ m.generation_count + 1
counted_once blocks m = ground arith

counted_premium :
    (blocks : List DocumentBlock) (m : OrganizationUsageMeter)
    → used signature_feature (counted blocks m).premium_feature_usage
      ≡ used signature_feature m.premium_feature_usage + signature_block_count blocks
counted_premium blocks m = elim (Bool-cases (ltb 0 (signature_block_count blocks))) [
  | inl e ↦ rw e (used-put signature_feature _ m.premium_feature_usage)
  | inr e ↦ rw e (let z : signature_block_count blocks ≡ 0 = ground arith in rw z (omega arith))
]

check_storage-inv :
    (bytes : ℕ) (s : BillingSnapshot) (db d : Db)
    → 0 < bytes
    → check_storage bytes s db ≡ ok (tt, d)
    → (s.usage_meter.storage_bytes + bytes ≤ s.plan.storage_quota_bytes) × (d ≡ db)
unfolding check_storage
check_storage-inv bytes s db d p h = ground arith

add_clamped-neg : (n k : ℕ) → add_clamped n (neg k) ≡ n - k
add_clamped-neg n zero = omega arith
add_clamped-neg n (suc k) = refl

-- A generation request that passes the check and is recorded leaves the meter one higher and within
-- the plan's monthly cap, with the document's signature blocks added to the premium usage; signature
-- blocks pass only on a plan that supports them.
pub generation_within_cap :
    (blocks : List DocumentBlock) (s : BillingSnapshot) (db db' : Db)
    → meter_in db s.usage_meter.id ≡ some s.usage_meter
    → (check_generation blocks s >> count_generation blocks s) db ≡ ok (tt, db')
    → (m : OrganizationUsageMeter) × (meter_in db' s.usage_meter.id ≡ some m)
      × (m.generation_count ≡ s.usage_meter.generation_count + 1)
      × (m.generation_count ≤ s.plan.monthly_generation_cap)
      × (used signature_feature m.premium_feature_usage
          ≡ used signature_feature s.usage_meter.premium_feature_usage
            + signature_block_count blocks)
      × ((s.plan.signature_support ≡ true) ⊎ (signature_block_count blocks ≡ 0))
generation_within_cap blocks s db db' h e =
    let (u, d, c, r) = tx-inv (check_generation blocks s) (λ _. count_generation blocks s) db e in
    let (under, support, same) = check_generation-inv blocks s db d c in
    let (d2, e2, at) = count_generation-counted blocks s db h in
    let q : d2 ≡ db' = cc in
    (
      counted blocks s.usage_meter,
      subst (λ x. meter_in x s.usage_meter.id ≡ some (counted blocks s.usage_meter)) q at,
      counted_once blocks s.usage_meter,
      rw (counted_once blocks s.usage_meter) (omega (arith, under)),
      counted_premium blocks s.usage_meter,
      support,
    )

-- A storage change by a positive number of bytes that passes the check and is recorded stays within the plan's quota, and
-- the meter counts exactly the bytes added. (For 0 bytes the check is skipped.)
pub storage_within_quota :
    (bytes : ℕ) (s : BillingSnapshot) (db db' : Db)
    → 0 < bytes
    → meter_in db s.usage_meter.id ≡ some s.usage_meter
    → (check_storage bytes s >> count_storage (pos bytes) s) db ≡ ok (tt, db')
    → (m : OrganizationUsageMeter) × (meter_in db' s.usage_meter.id ≡ some m)
      × (m.storage_bytes ≡ s.usage_meter.storage_bytes + bytes)
      × (m.storage_bytes ≤ s.plan.storage_quota_bytes)
unfolding count_storage adjust_storage_bytes
storage_within_quota bytes s db db' p h e =
    let f = λ (m : OrganizationUsageMeter). record m {
      storage_bytes = add_clamped m.storage_bytes (pos bytes);
    } in
    let (u, d, c, r) = tx-inv (check_storage bytes s) (λ _. count_storage (pos bytes) s) db e in
    let (fits, same) = check_storage-inv bytes s db d p c in
    let q : record db { meters = update (λ r. r.id == s.usage_meter.id) f db.meters } ≡ db' = cc in
    (
      f s.usage_meter,
      subst (λ x. meter_in x s.usage_meter.id ≡ some (f s.usage_meter)) q
          (meter_in-save f s.usage_meter db.meters (λ x. refl) h),
      refl,
      fits,
    )

-- Releasing bytes never takes the meter below zero: it counts the difference, or 0 where more is
-- released than was counted.
pub storage_released :
    (bytes : ℕ) (s : BillingSnapshot) (db : Db)
    → meter_in db s.usage_meter.id ≡ some s.usage_meter
    → (db' : Db) × (m : OrganizationUsageMeter) × (count_storage (neg bytes) s db ≡ ok (tt, db'))
      × (meter_in db' s.usage_meter.id ≡ some m)
      × (m.storage_bytes ≡ s.usage_meter.storage_bytes - bytes)
unfolding count_storage adjust_storage_bytes
storage_released bytes s db h =
    let f = λ (m : OrganizationUsageMeter). record m {
      storage_bytes = add_clamped m.storage_bytes (neg bytes);
    } in
    (
      record db { meters = update (λ r. r.id == s.usage_meter.id) f db.meters },
      f s.usage_meter,
      refl,
      meter_in-save f s.usage_meter db.meters (λ x. refl) h,
      add_clamped-neg s.usage_meter.storage_bytes bytes,
    )

-- Template creation passes only where the organization's templates, counted afresh, are fewer
-- than the plan allows, and then the meter holds that count.
pub template_creation_allowed :
    (s : BillingSnapshot) (db db' : Db)
    → meter_in db s.usage_meter.id ≡ some s.usage_meter
    → check_template_creation s db ≡ ok (tt, db')
    → (count_templates s.subscription.organization_id db < s.plan.max_templates)
      × (meter_in db' s.usage_meter.id
          ≡ some (record s.usage_meter {
            template_count = count_templates s.subscription.organization_id db;
          }))
unfolding check_template_creation sync_templates set_template_count
template_creation_allowed s db db' h e =
    let n = count_templates s.subscription.organization_id db in
    let f = λ (m : OrganizationUsageMeter). record m { template_count = n } in
    let d : Db = record db { meters = update (λ r. r.id == s.usage_meter.id) f db.meters } in
    elim (Bool-cases (leb s.plan.max_templates n)) [
      | inl over ↦
          absurd (cc (let z : check_template_creation s db ≡ err conflict = rw over refl in z))
      | inr under ↦
          let z : check_template_creation s db ≡ ok (tt, d) = rw under refl in
          let q : d ≡ db' = cc in
          (
            ground arith,
            subst (λ x. meter_in x s.usage_meter.id ≡ some (f s.usage_meter)) q
                (meter_in-save f s.usage_meter db.meters (λ x. refl) h),
          )
    ]
