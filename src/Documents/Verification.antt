-- ===== src/Documents/Verification.antt =====
-- app/services/document_verification_service.py: whether a file, or a digest, is that of a generated artifact.
pub mod Genuine
use Prim.Native.String.{String}
use document_generation_anek.Prelude.{
  ℕ, ◌+◌, ◌-◌, Bool, true, false, not, ◌&&◌, ◌||◌, Option, none, some, List, [], ◌∷◌, ◌++◌, all,
  take, length, is_some, leb, ltb, ◌==◌, if◌then◌else◌,
}
use document_generation_anek.Text.{Text, codes, is_space, strip}
use document_generation_anek.Models.{ArtifactKind, DocumentArtifact}
use document_generation_anek.Result.{
  Result, ok, err, validation, ◌>>=◌ as then_result, ◌>>◌ as after, raise_if,
}
use document_generation_anek.Database.{Tx, pure, lift, ◌>>=◌, ◌>>◌}
use document_generation_anek.Artifacts.{list_by_checksum}
use document_generation_anek.Storage.{Bytes}
use document_generation_anek.Import.Patterns.{is_ascii_digit}

pub record DocumentVerificationArtifactResponse : Type 0 where
  pub artifact_id : ℕ
  pub task_id : Option ℕ
  pub kind : ArtifactKind
  pub file_name : Text
  pub content_type : String
  pub size_bytes : Option ℕ
  pub authenticity_hash : Text
  pub verification_code : Text

pub record DocumentVerificationResponse : Type 0 where
  pub organization_id : ℕ
  pub matched : Bool
  pub provided_hash : Text
  pub matched_artifact_count : ℕ
  pub artifact : Option DocumentVerificationArtifactResponse

-- SHA256_HEX_PATTERN
abbrev pub is_hex : ℕ → Bool
is_hex c = is_ascii_digit c || leb b'a' c && leb c b'f'

abbrev pub is_sha256 : Text → Bool
is_sha256 s = all is_hex s && length s == 64

-- `str.upper` on hexadecimal digits
abbrev pub upper_hex : Text → Text
upper_hex [] = []
upper_hex (c ∷ s) = (if leb b'a' c && leb c b'z' then c - 32 else c) ∷ upper_hex s

-- `checksum or resolved_hash`
abbrev pub checksum_or : Option String → Text → Text
checksum_or none hash = hash
checksum_or (some c) hash = elim (codes c) [ [] ↦ hash | d ∷ s ↦ d ∷ s ]

-- `sha256`, `str.lower`, `artifact_id.hex`, and the size limit of the settings
pub record Digests : Type 0 where
  pub sha256 : Bytes → String
  pub lower : Text → Text
  pub hex : ℕ → Text
  pub max_upload_size_bytes : ℕ

module _ (d : Digests) where
  -- `_resolve_hash`
  unfoldable pub resolve_hash : Option Text → Option Bytes → Result Text
  resolve_hash (some hash) (some content) = err validation
  resolve_hash none none = err validation
  resolve_hash none (some content) =
      after (raise_if (ltb d.max_upload_size_bytes (length content)) validation)
        (ok (codes (d.sha256 content)))
  resolve_hash (some hash) none =
      after (raise_if (not (is_sha256 (d.lower (strip is_space hash)))) validation)
        (ok (d.lower (strip is_space hash)))

  -- `build_verification_code`
  unfoldable pub build_verification_code : ℕ → Text → Text
  build_verification_code artifact_id hash =
      codes "VER-" ++ (upper_hex (take 8 (d.hex artifact_id)) ++ (b'-' ∷ upper_hex (take 12 hash)))

  unfoldable pub verified_artifact : Text → DocumentArtifact → DocumentVerificationArtifactResponse
  unfolding build_verification_code
  verified_artifact hash a = record {
    artifact_id = a.id;
    task_id = a.document_job_id;
    kind = a.kind;
    file_name = a.file_name;
    content_type = a.content_type;
    size_bytes = a.size_bytes;
    authenticity_hash = checksum_or a.checksum hash;
    verification_code = build_verification_code a.id (checksum_or a.checksum hash);
  }

  -- the newest match
  abbrev pub representative :
      Text → List DocumentArtifact → Option DocumentVerificationArtifactResponse
  representative hash [] = none
  representative hash (a ∷ artifacts) = some (verified_artifact hash a)

  unfoldable pub verification_response :
      ℕ → Text → List DocumentArtifact → DocumentVerificationResponse
  unfolding verified_artifact
  verification_response organization_id hash matches = record {
    organization_id = organization_id;
    matched = is_some (representative hash matches);
    provided_hash = hash;
    matched_artifact_count = length matches;
    artifact = representative hash matches;
  }

  -- DocumentVerificationService.verify
  unfoldable pub verify : ℕ → Option Text → Option Bytes → Tx DocumentVerificationResponse
  unfolding resolve_hash verification_response
  verify organization_id authenticity_hash file_bytes = do
    resolved_hash ← lift (resolve_hash authenticity_hash file_bytes)
    matches ← list_by_checksum organization_id resolved_hash
    pure (verification_response organization_id resolved_hash matches)
