-- ===== src/Jobs/Tests.antt =====
-- Examples of the job properties.
use document_generation_anek.Prelude.{
  ℕ, ◌≤◌, ◌≡◌, refl, Bool, true, false, not, ◌&&◌, none, some, List, [], ◌∷◌, All, any, map, update,
  length, ◌==◌, arith,
}
use document_generation_anek.Result.{ok}
use document_generation_anek.Models.{
  queued, processing, completed, docx, DocumentJob, DocumentArtifact,
}
use document_generation_anek.Text.{codes}
use document_generation_anek.Database.{Db}
use document_generation_anek.Fixtures.{empty, job_row}
use document_generation_anek.Jobs.{
  claim_for_processing, claimed_row, is_claimable, is_stale_processing, create, is_cache_hit,
  find_completed_cache_hit, has_id, requeued_row, recover_stale_processing_jobs, get_cache_stats,
}
use document_generation_anek.Jobs.Lifecycle.{
  AllConsistent, here, next, creates, claims, Reach-AllConsistent,
}
use document_generation_anek.Jobs.Claim.{candidate, claim-inv}
use document_generation_anek.Jobs.Cache.{hit_none}
use mathlib.Core.List.{Memᴰ}
use document_generation_anek.Jobs.Recovery.{recover_sound, recover_complete}

abbrev waiting : Db
waiting = record empty { jobs = job_row 1 queued ∷ [] }

abbrev claimed : Db
unfolding claimed_row
claimed = record empty { jobs = claimed_row [] "key" 50 (job_row 1 queued) ∷ [] }

abbrev unlocked : ℕ → Bool
unlocked i = false

first_claim :
    claim_for_processing unlocked [] 1 [] "key" 50 (some 40) waiting
    ≡ ok (some (claimed_row [] "key" 50 (job_row 1 queued)), claimed)
unfolding claim_for_processing claimed_row is_claimable claimed
first_claim = refl

claim-inv_example :
    (job : DocumentJob) × (candidate unlocked [] 1 waiting ≡ some job)
    × (is_claimable (some 40) job ≡ true)
    × (claimed_row [] "key" 50 (job_row 1 queued) ≡ claimed_row [] "key" 50 job)
    × (claimed ≡ record waiting {
      jobs = update (λ r. r.id == job.id) (claimed_row [] "key" 50) waiting.jobs;
    })
claim-inv_example =
    claim-inv unlocked [] 1 [] "key" 50 (some 40) (claimed_row [] "key" 50 (job_row 1 queued))
      waiting claimed first_claim

created : create (job_row 1 queued) empty ≡ ok (job_row 1 queued, waiting)
unfolding create
created = refl

Reach-AllConsistent_example : AllConsistent claimed
Reach-AllConsistent_example = Reach-AllConsistent {db = empty} {db' = claimed} tt (
    next (next here (creates (job_row 1 queued) (refl, refl, refl) created)) (
      claims unlocked [] 1 [] "key" 50 (some 40) (some (claimed_row [] "key" 50 (job_row 1 queued)))
        (refl, tt) first_claim))

abbrev done_row : ℕ → ℕ → DocumentJob
done_row id t = record (job_row id completed) { started_at = some t; completed_at = some t }

abbrev finished : Db
finished = record empty { jobs = done_row 1 10 ∷ done_row 2 30 ∷ done_row 3 20 ∷ [] }

latest : find_completed_cache_hit 7 2 "key" finished ≡ ok (some (done_row 2 30), finished)
unfolding find_completed_cache_hit is_cache_hit
latest = refl

hit_none_example : find_completed_cache_hit 7 2 "other" finished ≡ ok (none, finished)
hit_none_example = hit_none 7 2 "other" finished (unfold is_cache_hit in refl)

abbrev stuck_row : DocumentJob
stuck_row = record (job_row 9 processing) { started_at = some 5 }

abbrev stuck : Db
stuck = record empty { jobs = stuck_row ∷ done_row 1 10 ∷ [] }

abbrev recovered : Db
unfolding requeued_row
recovered = record empty {
  jobs = requeued_row (some "Recovered stale processing job.") stuck_row ∷ done_row 1 10 ∷ [];
}

recovery : recover_stale_processing_jobs unlocked 20 5 stuck ≡ ok (9 ∷ [], recovered)
unfolding recover_stale_processing_jobs is_stale_processing recovered requeued_row
recovery = refl

abbrev recovered_ids : List ℕ
recovered_ids = 9 ∷ []

recover_sound_example :
    (jobs : List DocumentJob) × (recovered_ids ≡ map (λ (j : DocumentJob). j.id) jobs)
    × (length recovered_ids ≤ 5)
    × All
        (λ r. Memᴰ r stuck.jobs × ((is_stale_processing (some 20) r && not (unlocked r.id)) ≡ true))
        jobs
    × (recovered.jobs
        ≡ update (has_id jobs) (requeued_row (some "Recovered stale processing job.")) stuck.jobs)
recover_sound_example = recover_sound unlocked 20 5 recovered_ids stuck recovered recovery

recover_complete_example :
    any (λ r. is_stale_processing (some 20) r && not (unlocked r.id)) recovered.jobs ≡ false
recover_complete_example =
    recover_complete unlocked 20 5 (9 ∷ []) stuck recovered
      (unfold is_stale_processing in omega arith) recovery

abbrev file : DocumentArtifact
file = record {
  id = 1;
  organization_id = 7;
  template_version_id = 2;
  document_job_id = some 1;
  kind = docx;
  file_name = codes "a.docx";
  content_type = "application/msword";
  storage_key = codes "k";
  size_bytes = some 10;
  checksum = none;
  is_cached = true;
  expires_at = none;
}

-- one completed job has a cached file, another has none
abbrev stored : Db
stored = record empty {
  jobs =
      record (job_row 1 queued) { status = completed }
      ∷ record (job_row 2 queued) { status = completed }
      ∷ job_row 3 queued
      ∷ [];
  artifacts = file ∷ [];
}

counted :
    get_cache_stats 7 stored
    ≡ ok (record { completed_jobs = 2; cached_jobs = 1; cached_artifacts = 1 }, stored)
unfolding get_cache_stats
counted = refl
