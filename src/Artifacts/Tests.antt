-- ===== src/Artifacts/Tests.antt =====
-- An example of cache invalidation.
use document_generation_anek.Prelude.{◌≡◌, refl, false, none, some, List, [], ◌∷◌, arith}
use document_generation_anek.Models.{DocumentArtifact, pdf, completed}
use document_generation_anek.Result.{ok}
use document_generation_anek.Text.{codes}
use document_generation_anek.Database.{Db}
use document_generation_anek.Fixtures.{empty, job_row}
use document_generation_anek.Artifacts.{
  list_reusable_by_job_id, expire_for_cache_key, is_cached_for,
}
use document_generation_anek.Artifacts.Expiry.{expire_for_cache_key-list_reusable}

abbrev file : DocumentArtifact
file = record {
  id = 21;
  organization_id = 7;
  document_job_id = some 1;
  template_version_id = 2;
  kind = pdf;
  file_name = codes "a.pdf";
  content_type = "application/pdf";
  storage_key = codes "artifacts/a.pdf";
  checksum = none;
  size_bytes = some 10;
  is_cached = false;
  expires_at = none;
}

abbrev stored : Db
stored = record empty { jobs = job_row 1 completed ∷ []; artifacts = file ∷ [] }

before : list_reusable_by_job_id 60 1 stored ≡ ok (file ∷ [], stored)
unfolding list_reusable_by_job_id
before = refl

expire_for_cache_key-list_reusable_example :
    (expired : List DocumentArtifact) × (db : Db) × (expire_for_cache_key 7 2 "key" 50 stored
      ≡ ok (expired, db))
    × (list_reusable_by_job_id 60 1 db ≡ ok ([], db))
expire_for_cache_key-list_reusable_example =
    expire_for_cache_key-list_reusable 7 2 1 50 60 "key" stored
      (unfold is_cached_for in ((λ h. refl), tt)) (omega arith)
