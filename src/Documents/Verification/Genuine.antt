-- ===== src/Documents/Verification/Genuine.antt =====
-- A generated file is recognised by the verification.
use Prim.Native.String.{String}
use mathlib.Core.Path.{subst}
use mathlib.Core.List.{reverse, reverse-cons}
use document_generation_anek.Prelude.{
  ℕ, suc, ◌≤◌, ◌≡◌, refl, Bool, true, false, ◌&&◌, ◌||◌, Option, none, some, List, [], ◌∷◌, ◌++◌,
  any, select, length, is_some, ltb, ◌==◌, ==-self, if◌then◌else◌, arith,
}
use document_generation_anek.Prelude.Int.{pos}
use document_generation_anek.Text.{Text, codes, text_eq_self}
use document_generation_anek.Result.{Result, ok, err}
use document_generation_anek.Models.{ArtifactKind, DocumentArtifact, artifact_created}
use document_generation_anek.Database.{Db}
use document_generation_anek.Database.Keeps.{ap-Keeps}
use document_generation_anek.Audit.{log_event}
use document_generation_anek.Artifacts.{create_artifact, list_by_checksum, checksum_is}
use document_generation_anek.Billing.Limits.{record_storage_usage}
use document_generation_anek.Billing.Footprint.{beside, record_storage-IsMetering}
use document_generation_anek.Storage.{Bytes, StorageObject, upload_generated_artifact}
use document_generation_anek.World.{World, pure, session, then_do}
use document_generation_anek.World.Keeps.{session-Leaves, leaves_then}
use document_generation_anek.Documents.Resolver.{ResolvedTemplateContext}
use document_generation_anek.Documents.Services.{Services}
use document_generation_anek.Documents.Stored.{
  insert_artifact, record_artifact, generated_row, store_generated, artifact_name, size_or,
}
use document_generation_anek.Documents.Verification.{
  DocumentVerificationResponse, Digests, resolve_hash, representative, verification_response,
  verify,
}

abbrev artifacts_of : Db → List DocumentArtifact
artifacts_of db = db.artifacts

abbrev has_digest : ℕ → Text → DocumentArtifact → Bool
has_digest organization_id hash a =
    a.organization_id == organization_id && checksum_is a.checksum hash

module _ {O : Type 0} (s : Services O) (context : ResolvedTemplateContext) (content : Bytes) where
  abbrev hash : Text
  hash = codes (s.sha256 content)

  -- the tables have an artifact of the organization with the digest of the content
  abbrev Listed : Result DocumentArtifact × World O → Type 0
  Listed (ok a, w) = any (has_digest context.organization_id hash) w.db.artifacts ≡ true
  Listed (err e, w) = Unit {0}

  any-snoc :
      (xs : List DocumentArtifact) (a : DocumentArtifact)
      → has_digest context.organization_id hash a ≡ true
      → any (has_digest context.organization_id hash) (xs ++ a ∷ []) ≡ true
  any-snoc [] a h = rw h refl
  any-snoc (x ∷ xs) a h = ground (arith, any-snoc xs a h)

  recorded :
      (user_id : Option ℕ) (size : ℕ) (make : ℕ → DocumentArtifact)
      → ((id : ℕ) → has_digest context.organization_id hash (make id) ≡ true)
      → (w : World O) → Listed (record_artifact s context.organization_id user_id size make w)
  unfolding record_artifact insert_artifact create_artifact log_event
  recorded user_id size make own w =
      let row = make w.db.next_id in
      let artifacts = w.db.artifacts ++ row ∷ [] in
      leaves_then artifacts_of Listed
        (session (log_event row.organization_id user_id artifact_created (some row.id))) _ artifacts
        (λ e v. tt) (λ v. refl)
        (λ _.
          leaves_then artifacts_of Listed
            (session (record_storage_usage s.clock context.organization_id (pos size)))
            (λ _. pure row) artifacts (λ e v. tt)
            (session-Leaves artifacts_of
              (record_storage_usage s.clock context.organization_id (pos size))
              (ap-Keeps beside artifacts_of
                (record_storage_usage s.clock context.organization_id (pos size))
                (record_storage-IsMetering s.clock context.organization_id (pos size))))
            λ _ v q. rw q (any-snoc w.db.artifacts row (own w.db.next_id)))
        (record w { db = record w.db { next_id = suc w.db.next_id; artifacts = artifacts } }) refl

  stored :
      (kind : ArtifactKind) (extension : Text) (t : String) (job_id : ℕ) (user_id : Option ℕ)
      (w : World O)
      → Listed (store_generated s kind extension t context job_id user_id content w)
  unfolding store_generated generated_row
  stored kind extension t job_id user_id w = go (
      upload_generated_artifact s.client s.storage_settings context.organization_code
        (s.uuid_text job_id) (artifact_name s context extension) content t w)
    where
      row : StorageObject → ℕ → DocumentArtifact
      row o =
          generated_row s context job_id kind (artifact_name s context extension) o
            (s.sha256 content)

      go :
          (r : Result StorageObject × World O)
          → Listed (
              then_do r λ o.
                record_artifact s context.organization_id user_id
                  (size_or o.size_bytes (length content))
                  (row o))
      go (ok o, v) =
          recorded user_id (size_or o.size_bytes (length content)) (row o)
            (λ id. rw (==-self context.organization_id) (text_eq_self hash)) v
      go (err e, v) = tt

  some_selected :
      (d : Digests) (p : DocumentArtifact → Bool) (xs : List DocumentArtifact)
      → any p xs ≡ true
      → is_some (representative d hash (reverse (select p xs))) ≡ true
  some_selected d p [] h = absurd (cc)
  some_selected d p (x ∷ xs) h = go (p x) h (some_selected d p xs)
    where
      snoc : (ys : List DocumentArtifact) → is_some (representative d hash (ys ++ x ∷ [])) ≡ true
      snoc [] = refl
      snoc (y ∷ ys) = refl

      go :
          (b : Bool)
          → (b || any p xs) ≡ true
          → (any p xs ≡ true → is_some (representative d hash (reverse (select p xs))) ≡ true)
          → is_some (representative d hash (reverse (if b then x ∷ select p xs else select p xs)))
            ≡ true
      go true k rec = rw (reverse-cons x (select p xs)) (snoc (reverse (select p xs)))
      go false k rec = rec k

  -- A file that `store_docx` or `store_pdf` stored is found by the verification of its bytes in the same organization, as
  -- long as it is not larger than an upload may be, and whatever other artifacts there are.
  pub store_generated-verify :
      (d : Digests) (kind : ArtifactKind) (extension : Text) (t : String) (job_id : ℕ)
      (user_id : Option ℕ) (w w' : World O) (a : DocumentArtifact)
      → ((c : Bytes) → d.sha256 c ≡ s.sha256 c)
      → length content ≤ d.max_upload_size_bytes
      → store_generated s kind extension t context job_id user_id content w ≡ (ok a, w')
      → (r : DocumentVerificationResponse) × (verify d context.organization_id none
            (some content)
            w'.db
          ≡ ok (r, w'.db))
        × (r.matched ≡ true)
  unfolding verify resolve_hash list_by_checksum verification_response
  store_generated-verify d kind extension t job_id user_id w w' a same small h =
      let fits : ltb d.max_upload_size_bytes (length content) ≡ false = ground arith in
      let listed : any (has_digest context.organization_id hash) w'.db.artifacts ≡ true =
        subst Listed h (stored kind extension t job_id user_id w) in
      (
        verification_response d context.organization_id hash
            (reverse (select (has_digest context.organization_id hash) w'.db.artifacts)),
        rw fits (rw (same content) refl),
        some_selected d (has_digest context.organization_id hash) w'.db.artifacts listed,
      )
