-- ===== src/Artifacts/Expiry.antt =====
-- `expire_for_cache_key`: cache invalidation.
use Prim.Native.String.{String}
use document_generation_anek.Prelude.{
  ℕ, ◌<◌, ◌≡◌, refl, Bool, true, false, ◌&&◌, some, List, [], ◌∷◌, All, select, update, leb,
  Bool-cases, inl, inr, if◌then◌else◌, arith,
}
use document_generation_anek.Models.{DocumentArtifact}
use document_generation_anek.Result.{ok}
use document_generation_anek.Database.{Db}
use document_generation_anek.Artifacts.{
  of_job, not_expired, list_reusable_by_job_id, is_cached_for, expire_for_cache_key,
}

abbrev pub expired_at : ℕ → DocumentArtifact → DocumentArtifact
expired_at t a = record a { expires_at = some t }

no_reusable :
    (hit : DocumentArtifact → Bool) (t now job_id : ℕ) (artifacts : List DocumentArtifact)
    → t < now
    → All (λ a. of_job job_id a ≡ true → hit a ≡ true) artifacts
    → select
        (λ a. of_job job_id a && not_expired a.expires_at now)
        (update hit (expired_at t) artifacts)
      ≡ []
no_reusable hit t now job_id [] late h = refl
no_reusable hit t now job_id (a ∷ artifacts) late h =
    one (hit a) (of_job job_id a) refl h.0 (no_reusable hit t now job_id artifacts late h.1)
  where
    one :
        (b c : Bool)
        → of_job job_id a ≡ c
        → (of_job job_id a ≡ true → b ≡ true)
        → select
            (λ x. of_job job_id x && not_expired x.expires_at now)
            (update hit (expired_at t) artifacts)
          ≡ []
        → select
            (λ x. of_job job_id x && not_expired x.expires_at now)
            ((if b then expired_at t a else a) ∷ update hit (expired_at t) artifacts)
          ≡ []
    one true c hc g rec =
        let l : leb now t ≡ false = ground arith in
        elim (Bool-cases (of_job job_id (expired_at t a))) [
          | inl e ↦ rw e (rw l rec)
          | inr e ↦ rw e rec
        ]
    one false true hc g rec = absurd (cc (g hc))
    one false false hc g rec = rw hc rec

-- After a cache key is expired at `expires_at`, the artifacts of a job are offered for reuse at no later time, where all
-- artifacts of that job are of the given organization and template version and the job has the key.
pub expire_for_cache_key-list_reusable :
    (organization_id template_version_id job_id expires_at now : ℕ) (cache_key : String) (db : Db)
    → All
        (λ a.
          of_job job_id a ≡ true
          → is_cached_for db.jobs organization_id template_version_id cache_key a ≡ true)
        db.artifacts
    → expires_at < now
    → (expired : List DocumentArtifact) × (db' : Db) × (expire_for_cache_key organization_id
          template_version_id cache_key expires_at db
        ≡ ok (expired, db'))
      × (list_reusable_by_job_id now job_id db' ≡ ok ([], db'))
unfolding expire_for_cache_key list_reusable_by_job_id
expire_for_cache_key-list_reusable organization_id template_version_id job_id expires_at now
      cache_key db h late =
    let hit = is_cached_for db.jobs organization_id template_version_id cache_key in
    let none_left = no_reusable hit expires_at now job_id db.artifacts late h in
    (
      select hit (update hit (expired_at expires_at) db.artifacts),
      record db { artifacts = update hit (expired_at expires_at) db.artifacts },
      refl,
      rw none_left refl,
    )
