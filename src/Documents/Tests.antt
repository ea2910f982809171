-- ===== src/Documents/Tests.antt =====
-- Examples of the generation of documents.
use document_generation_anek.Prelude.{◌≡◌, refl, true, ◌&&◌, ◌==◌, none, some, [], ◌∷◌, find, arith}
use document_generation_anek.Text.{codes}
use document_generation_anek.Text.Decimal.{int_of}
use document_generation_anek.Result.{ok, err, storage}
use document_generation_anek.Models.{DocumentJob, DocumentArtifact, docx}
use document_generation_anek.Json.{str}
use document_generation_anek.World.{World, transaction}
use document_generation_anek.Jobs.{
  get_by_id, claim_for_processing, is_claimable, is_stale_processing, claimed_row, mark_completed,
  completed_row,
}
use document_generation_anek.Templates.{
  get_by_id as template_by_id, scalar_one_or_none, version_by_id,
}
use document_generation_anek.Billing.Store.{
  organization_by_id, subscription_of, meter_by_period, plan_by_id, adjust_storage_bytes,
}
use document_generation_anek.Billing.Renewal.{roll_forward}
use document_generation_anek.Billing.Snapshot.{
  ensure_subscription, ensure_meter, ensure_snapshot, with_snapshot,
}
use document_generation_anek.Billing.Limits.{
  check_storage, enforce_storage_delta_allowed, count_storage, record_storage_usage,
}
use document_generation_anek.Audit.{log_event}
use document_generation_anek.Artifacts.{create_artifact}
use document_generation_anek.Docx.{resolve_paragraph_target, resolve_segments, resolve_in_container}
use document_generation_anek.Rendering.{
  apply_sorted, apply_all, later_first, replace_span, replace_runs, run_text, overlaps,
}
use document_generation_anek.Rendering.Payload.{prepare_payload, normalize_bindings, binding_value}
use document_generation_anek.Storage.{
  download_bytes, upload_generated_artifact, put_object, ensure_bucket,
}
use document_generation_anek.StorageKeys.{
  artifact_key, three_part_key, clean_segment, clean_file_name, posix_path,
}
use document_generation_anek.Documents.Resolver.{ResolvedTemplateContext, resolve, to_context}
use document_generation_anek.Documents.Filling.{
  fill_document, bindings_by_path, fill_paths, fill_path, replacement_of,
}
use document_generation_anek.Documents.Processing.{
  process_job, run_job, claim_job, complete_job, prepare,
}
use document_generation_anek.Documents.Completion.{IsCompleted, process_job-IsCompleted}
use document_generation_anek.Documents.Settlement.{is_transient, IsSettled, process_job-IsSettled}
use document_generation_anek.Documents.Stored.{
  store_docx, store_generated, record_artifact, insert_artifact, generated_row, artifact_expiration,
}
use document_generation_anek.Documents.Verification.{Digests, DocumentVerificationResponse, verify}
use document_generation_anek.Documents.Verification.Genuine.{store_generated-verify}
use document_generation_anek.Fixtures.Outside.{
  Objects, machinery, shop, waiting, letter, first_version,
}
use document_generation_anek.Fixtures.{acme}

abbrev done : World Objects
done = (process_job machinery 9 shop).1

processed : process_job machinery 9 shop ≡ (ok true, done)
unfolding process_job run_job claim_job complete_job transaction get_by_id resolve to_context
    template_by_id scalar_one_or_none version_by_id organization_by_id prepare prepare_payload
    normalize_bindings binding_value claim_for_processing is_claimable is_stale_processing
    claimed_row download_bytes fill_document bindings_by_path fill_paths fill_path replacement_of
    resolve_paragraph_target resolve_segments resolve_in_container int_of apply_sorted apply_all
    later_first replace_span replace_runs run_text overlaps enforce_storage_delta_allowed
    check_storage with_snapshot ensure_snapshot ensure_subscription ensure_meter roll_forward
    subscription_of meter_by_period plan_by_id store_docx store_generated upload_generated_artifact
    artifact_key three_part_key clean_segment clean_file_name posix_path put_object ensure_bucket
    record_artifact insert_artifact create_artifact generated_row artifact_expiration log_event
    record_storage_usage count_storage adjust_storage_bytes mark_completed completed_row
processed = refl

process_job-IsCompleted_example : IsCompleted machinery 9 done.db
process_job-IsCompleted_example = process_job-IsCompleted machinery 9 shop done processed

-- the template's file is gone from the object store
abbrev broken : World Objects
broken = record shop { objects = [] }

abbrev taken : DocumentJob
taken = claimed_row ((codes "name", str (codes "Alice")) ∷ []) "key" 1000 waiting

abbrev interrupted : World Objects
interrupted = record broken { db = record broken.db { jobs = taken ∷ [] } }

interrupting : run_job machinery 9 broken ≡ (err storage, interrupted)
unfolding run_job claim_job transaction get_by_id resolve to_context template_by_id
    scalar_one_or_none version_by_id organization_by_id prepare prepare_payload normalize_bindings
    binding_value claim_for_processing is_claimable is_stale_processing claimed_row download_bytes
interrupting = refl

interrupted_job : find (λ r. r.id == 9 && true) interrupted.db.jobs ≡ some taken
unfolding claimed_row
interrupted_job = refl

process_job-IsSettled_example :
    IsSettled machinery 9 interrupted storage taken interrupted_job
      (is_transient storage)
      (process_job machinery 9 broken)
process_job-IsSettled_example =
    process_job-IsSettled machinery 9 broken interrupted storage taken interrupting interrupted_job

abbrev context : ResolvedTemplateContext
context = to_context letter first_version acme

abbrev saved : World Objects
saved = (store_generated machinery docx (codes ".docx") "docx" context 9 none (1 ∷ []) shop).1

abbrev artifact : DocumentArtifact
artifact =
    generated_row machinery context 9 docx (codes "letter-1.docx")
      (record {
        key = codes "artifacts/acme/9/letter-1.docx";
        content_type = "docx";
        size_bytes = 1;
      })
      "digest" 100

saving :
    store_generated machinery docx (codes ".docx") "docx" context 9 none (1 ∷ []) shop
    ≡ (ok artifact, saved)
unfolding to_context store_generated upload_generated_artifact artifact_key three_part_key
    clean_segment clean_file_name posix_path put_object ensure_bucket record_artifact
    insert_artifact create_artifact generated_row artifact_expiration log_event record_storage_usage
    count_storage adjust_storage_bytes with_snapshot ensure_snapshot ensure_subscription
    ensure_meter roll_forward subscription_of meter_by_period plan_by_id organization_by_id
saving = refl

abbrev digests : Digests
digests = record {
  sha256 = λ c. "digest";
  lower = λ s. s;
  hex = λ id. codes "0123456789abcdef";
  max_upload_size_bytes = 100;
}

store_generated-verify_example :
    (r : DocumentVerificationResponse) × (verify digests context.organization_id none
        (some (1 ∷ []))
        saved.db
      ≡ ok (r, saved.db))
    × (r.matched ≡ true)
store_generated-verify_example =
    store_generated-verify machinery context (1 ∷ []) digests docx (codes ".docx") "docx" 9 none
      shop saved artifact (λ c. refl) (omega arith) saving
