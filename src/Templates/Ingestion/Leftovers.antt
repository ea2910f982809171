-- ===== src/Templates/Ingestion/Leftovers.antt =====
-- An upload of a template that fails leaves no file in the object storage.
use mathlib.Core.Path.{subst}
use document_generation_anek.Prelude.Int.{pos}
use document_generation_anek.Prelude.{
  ◌≡◌, refl, ap, ◌∙◌, false, Bool-cases, inl, inr, Option, none, some, length, is_some,
}
use document_generation_anek.Text.{Text, text_eq, text_eq→eq}
use document_generation_anek.Result.{Error, Result, ok, err, not_found, conflict}
use document_generation_anek.Models.{Template}
use document_generation_anek.Schema.{TemplateSchemaResponse}
use document_generation_anek.Billing.Store.{organization_by_id}
use document_generation_anek.Billing.Limits.{
  enforce_storage_delta_allowed, enforce_template_creation_allowed, record_storage_usage,
  sync_template_count,
}
use document_generation_anek.Storage.{
  Bytes, delete_object, storage_error, upload_template as put_template,
}
use document_generation_anek.Storage.Laws.{
  StoreLaws, Stores, After, keeps_then, Stores->>=-pure, upload_template-Stores,
}
use document_generation_anek.World.{
  World, pure, raise, lift, or_raise, raise_if, session, then_do, handle, commit, resume, sent,
  transaction_in_two, in_storage, ◌>>=◌,
}
use document_generation_anek.World.Keeps.{
  KeepsObjects, >>=-KeepsObjects, session-then, session-KeepsObjects, or_raise-KeepsObjects,
  raise_if-KeepsObjects, commit-objects, sent-objects,
}
use document_generation_anek.Security.Uploads.{Upload}
use document_generation_anek.Templates.{
  get_by_code, create_template, save_template, get_by_template_and_version, add_current_version,
}
use document_generation_anek.Templates.Code.{normalize_code}
use document_generation_anek.Templates.Extraction.{extract_schema}
use document_generation_anek.Templates.Responses.{TemplateIngestionResponse}
use document_generation_anek.Templates.Service.{TemplateServices, validated}
use document_generation_anek.Templates.Ingestion.{
  UploadRequest, Prepared, template_row, version_row, renamed, create_or_rename,
  get_or_create_template, template_for_version, type_or_docx, upload_file, store_version,
  discard_file, upload_template,
}

abbrev key_of : Prepared → Text
key_of p = p.stored_key

module _ {O : Type 0} (s : TemplateServices O) (r : UploadRequest) where
  create_or_rename-KeepsObjects :
      (code : Text) (found : Option Template) → KeepsObjects (create_or_rename s r code found)
  create_or_rename-KeepsObjects code (some t) =
      session-KeepsObjects (save_template (renamed r.name r.description) t)
  create_or_rename-KeepsObjects code none =
      session-then (enforce_template_creation_allowed s.clock r.organization_id)
        (λ _. session (create_template (template_row r.organization_id r.name code r.description)))
        λ _.
          session-KeepsObjects
            (create_template (template_row r.organization_id r.name code r.description))

  get_or_create-KeepsObjects : KeepsObjects (get_or_create_template s r)
  unfolding get_or_create_template
  get_or_create-KeepsObjects =
      >>=-KeepsObjects {B = Template} (lift (normalize_code s.unicode.lower r.code)) _ (λ w. refl)
        λ code.
          session-then {B = Template} (get_by_code r.organization_id code)
            (create_or_rename s r code) λ found. create_or_rename-KeepsObjects code found

  template_for_version-KeepsObjects : KeepsObjects (template_for_version s r)
  unfolding template_for_version
  template_for_version-KeepsObjects =
      >>=-KeepsObjects {B = Template} (get_or_create_template s r) _ get_or_create-KeepsObjects λ t.
        session-then {B = Template} (get_by_template_and_version t.id r.version) _ λ v.
          >>=-KeepsObjects {B = Template} (raise_if (is_some v) conflict) (λ _. pure t)
            (raise_if-KeepsObjects (is_some v) conflict) λ _ w. refl

  store_version-KeepsObjects :
      (name : Text) (content : Bytes) (schema : TemplateSchemaResponse) (p : Prepared)
      → KeepsObjects (store_version s r name content schema p)
  unfolding store_version
  store_version-KeepsObjects name content schema p =
      session-then {B = TemplateIngestionResponse}
        (add_current_version p.template.id (
          version_row r p.template.id name p.stored_key (length content) (s.docx.sha256 content)
            schema))
        _
        λ v.
          session-then {B = TemplateIngestionResponse}
            (record_storage_usage s.clock r.organization_id (pos (length content))) _
            λ _.
              session-then {B = TemplateIngestionResponse}
                (sync_template_count s.clock r.organization_id) _ λ _ w. refl

  module _ (laws : StoreLaws s.client) where
    upload_file-Stores :
        (name : Text) (file : Upload) → Stores laws key_of (upload_file s r name file)
    unfolding upload_file
    upload_file-Stores name file =
        keeps_then laws key_of (session (organization_by_id r.organization_id)) _
          (session-KeepsObjects (organization_by_id r.organization_id))
          λ found.
            keeps_then laws key_of (or_raise found not_found) _
              (or_raise-KeepsObjects found not_found)
              λ o.
                keeps_then laws key_of
                  (session
                    (enforce_storage_delta_allowed s.clock r.organization_id (length file.content)))
                  _
                  ((session-KeepsObjects (
                    enforce_storage_delta_allowed s.clock r.organization_id (length file.content))))
                  λ _.
                    keeps_then laws key_of (template_for_version s r) _
                      template_for_version-KeepsObjects
                      λ t.
                        Stores->>=-pure laws (λ a. a.key) key_of
                          (put_template s.client s.storage_settings o.code t.code r.version name
                            file.content (type_or_docx file.content_type))
                          (λ stored. record { template = t; stored_key = stored.key }) (λ a. refl)
                          (upload_template-Stores laws s.storage_settings o.code t.code r.version
                            name file.content (type_or_docx file.content_type))

    discarded :
        (p : Prepared) (e : Error) (v : World O) (k : Text)
        → (text_eq k p.stored_key ≡ false → laws.holds k v.objects ≡ false)
        → laws.holds k (discard_file s r p e v).1.objects ≡ false
    unfolding discard_file delete_object
    discarded p e v k h =
        go (s.client.remove_object p.stored_key v.objects)
          (elim (Bool-cases (text_eq k p.stored_key)) [
            | inl q ↦ rw (text_eq→eq k p.stored_key q) (laws.remove_own p.stored_key v.objects)
            | inr q ↦ laws.remove_others p.stored_key v.objects k (h q)
          ])
      where
        go :
            (x : Result (Unit {0}) × O)
            → laws.holds k x.1 ≡ false
            → laws.holds k
                (then_do {B = TemplateIngestionResponse}
                  (handle (λ y. raise (storage_error y)) (in_storage v x))
                  (λ _. raise e)).1.objects
              ≡ false
        go (ok a, o) q = q
        go (err y, o) q = q

    abbrev Cleared : Text → Result TemplateIngestionResponse × World O → Type 0
    Cleared k (ok a, v) = Unit {0}
    Cleared k (err e, v) = laws.holds k v.objects ≡ false

    cleared :
        (k : Text) (x : Result TemplateIngestionResponse × World O)
        → laws.holds k x.1.objects ≡ false
        → Cleared k x
    cleared k (ok a, v) q = tt
    cleared k (err e, v) q = q

    handled :
        (k : Text) (p : Prepared) (v : World O) (x : Result TemplateIngestionResponse × World O)
        → (text_eq k p.stored_key ≡ false → laws.holds k v.objects ≡ false)
        → x.1.objects ≡ v.objects
        → Cleared k (handle (discard_file s r p) x)
    handled k p v (ok a, u) h q = tt
    handled k p v (err e, u) h q =
        cleared k (discard_file s r p e u) (discarded p e u k λ d. ap (laws.holds k) q ∙ h d)

    resumed :
        (name : Text) (content : Bytes) (schema : TemplateSchemaResponse) (w : World O) (k : Text)
        (x : Result Prepared × World O)
        → After laws key_of k x
        → Cleared k (
            resume s.commit_answer w.db
              (store_version s r name content schema)
              (discard_file s r)
              x)
    resumed name content schema w k (err e, v) h = h
    resumed name content schema w k (ok p, v) h =
        let x = store_version s r name content schema p v in
        handled k p v (commit w.db (sent s.commit_answer x)) h (
          commit-objects w.db (sent s.commit_answer x)
          ∙ sent-objects s.commit_answer x
          ∙ store_version-KeepsObjects name content schema p v)

    upload_template-Cleared :
        (file : Upload) (w : World O) (k : Text)
        → laws.holds k w.objects ≡ false
        → Cleared k (upload_template s r file w)
    unfolding upload_template transaction_in_two
    upload_template-Cleared file w k free = named (validated s file)
      where
        with_schema :
            (name : Text) (x : Result TemplateSchemaResponse)
            → Cleared k (
                (lift x >>= λ schema.
                transaction_in_two s.commit_answer
                  (upload_file s r name file)
                  (store_version s r name file.content schema)
                  (discard_file s r))
                  w)
        with_schema name (err e) = free
        with_schema name (ok schema) =
            resumed name file.content schema w k (upload_file s r name file w)
              (upload_file-Stores name file w k free)

        named :
            (x : Result Text)
            → Cleared k (
                (lift x >>= λ name.
                lift (extract_schema s.docx.is_zipfile s.packages s.unicode name file.content)
                >>= λ schema.
                    transaction_in_two s.commit_answer
                      (upload_file s r name file)
                      (store_version s r name file.content schema)
                      (discard_file s r))
                  w)
        named (err e) = free
        named (ok name) =
            with_schema name
              (extract_schema s.docx.is_zipfile s.packages s.unicode name file.content)

    -- Where `upload_template` raises, every storage key that had no object before the call has none after it: a file
    -- that was stored before the error, of a write behind it or of the COMMIT, is deleted again. That holds for every
    -- client of the object store that deletes what it is asked to delete, and stores nothing when an upload fails.
    pub upload_template-leaves_no_file :
        (file : Upload) (w w' : World O) (e : Error)
        → upload_template s r file w ≡ (err e, w')
        → (k : Text) → laws.holds k w.objects ≡ false
        → laws.holds k w'.objects ≡ false
    upload_template-leaves_no_file file w w' e h k free =
        subst (Cleared k) h (upload_template-Cleared file w k free)
