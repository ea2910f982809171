-- ===== src/Artifacts.antt =====
-- app/repositories/document_artifact_repository.py: the stored files of document jobs. The time that a method reads is
-- its argument `now`.
pub mod Expiry
mod Tests
use Prim.Native.String.{String}
use text.Mathlib.Text.{◌==◌ as str_eq}
use mathlib.Core.List.{reverse}
use document_generation_anek.Prelude.{
  ℕ, Bool, true, false, not, ◌&&◌, ◌||◌, Option, none, some, List, [], ◌∷◌, ◌++◌, any, find, select,
  update, take, sort_by, length, leb, ltb, ◌==◌, if◌then◌else◌,
}
use document_generation_anek.Text.{Text, codes, text_eq}
use document_generation_anek.Models.{
  ArtifactKind, docx, pdf, preview, source, DocumentArtifact, DocumentJob,
}
use document_generation_anek.Database.{Db, Tx, pure, gets}
use document_generation_anek.Result.{ok}
use document_generation_anek.Jobs.{key_is, asc, before}

unfoldable pub create_artifact : DocumentArtifact → Tx DocumentArtifact
create_artifact a db = pure a (record db { artifacts = db.artifacts ++ a ∷ [] })

abbrev pub opt_is : Option ℕ → ℕ → Bool
opt_is none k = false
opt_is (some j) k = j == k

abbrev pub of_job : ℕ → DocumentArtifact → Bool
of_job job_id a = opt_is a.document_job_id job_id

unfoldable pub list_by_job_id : ℕ → Tx (List DocumentArtifact)
list_by_job_id job_id = gets λ db. select (of_job job_id) db.artifacts

-- `expires_at IS NULL OR expires_at >= now`
abbrev pub not_expired : Option ℕ → ℕ → Bool
not_expired none now = true
not_expired (some t) now = leb now t

unfoldable pub list_reusable_by_job_id : ℕ → ℕ → Tx (List DocumentArtifact)
list_reusable_by_job_id now job_id =
    gets λ db. select (λ a. of_job job_id a && not_expired a.expires_at now) db.artifacts

abbrev pub same_kind : ArtifactKind → ArtifactKind → Bool
same_kind = elim [
  | docx ↦ λ k. elim k [ docx ↦ true | _ ↦ false ]
  | pdf ↦ λ k. elim k [ pdf ↦ true | _ ↦ false ]
  | preview ↦ λ k. elim k [ preview ↦ true | _ ↦ false ]
  | source ↦ λ k. elim k [ source ↦ true | _ ↦ false ]
]

abbrev pub first_some : Option DocumentArtifact → Option DocumentArtifact → Option DocumentArtifact
first_some (some a) o = some a
first_some none o = o

-- the loops of `get_preferred_for_job`
abbrev pub preferred : List ArtifactKind → List DocumentArtifact → Option DocumentArtifact
preferred [] artifacts = none
preferred (kind ∷ kinds) artifacts =
    let rest = preferred kinds artifacts in
    first_some (find (λ a. same_kind a.kind kind) artifacts) rest

unfoldable pub get_preferred_for_job : ℕ → List ArtifactKind → Tx (Option DocumentArtifact)
get_preferred_for_job job_id preferred_kinds =
    gets λ db. preferred preferred_kinds (select (of_job job_id) db.artifacts)

abbrev pub checksum_is : Option String → Text → Bool
checksum_is none checksum = false
checksum_is (some c) checksum = text_eq (codes c) checksum

-- newest first
unfoldable pub list_by_checksum : ℕ → Text → Tx (List DocumentArtifact)
list_by_checksum organization_id checksum = gets λ db. reverse (
    select (λ a. a.organization_id == organization_id && checksum_is a.checksum checksum)
      db.artifacts)

unfoldable pub list_expired : ℕ → ℕ → Tx (List DocumentArtifact)
list_expired expired_before limit = gets λ db. take limit (
    sort_by (λ a b. asc a.expires_at b.expires_at)
      (select (λ a. before a.expires_at expired_before) db.artifacts))

-- the join with the job of the artifact
abbrev pub job_has_key : List DocumentJob → String → Option ℕ → Bool
job_has_key jobs cache_key none = false
job_has_key jobs cache_key (some k) = any (λ j. j.id == k && key_is j.cache_key cache_key) jobs

unfoldable pub is_cached_for : List DocumentJob → ℕ → ℕ → String → DocumentArtifact → Bool
is_cached_for jobs organization_id template_version_id cache_key a =
    a.organization_id == organization_id
    && a.template_version_id == template_version_id
    && job_has_key jobs cache_key a.document_job_id

unfoldable pub expire_for_cache_key : ℕ → ℕ → String → ℕ → Tx (List DocumentArtifact)
unfolding is_cached_for
expire_for_cache_key organization_id template_version_id cache_key expires_at db =
    let hit = is_cached_for db.jobs organization_id template_version_id cache_key in
    let expire = λ (a : DocumentArtifact). record a { expires_at = some expires_at } in
    ok (
      select hit (update hit expire db.artifacts),
      record db { artifacts = update hit expire db.artifacts },
    )

unfoldable pub delete_artifacts : List DocumentArtifact → Tx ℕ
delete_artifacts artifacts db = ok (
  length artifacts,
  record db { artifacts = select (λ a. not (any (λ d. d.id == a.id) artifacts)) db.artifacts },
)
