-- ===== src/Templates/Tests.antt =====
-- Examples of the services that keep templates.
use document_generation_anek.Prelude.{
  ℕ, ◌+◌, ◌≡◌, refl, ◌⊎◌, true, false, not, none, some, List, [], ◌∷◌, count_by, select, any, arith,
}
use document_generation_anek.Text.{Text, codes, text_eq}
use document_generation_anek.Result.{ok, err, conflict, validation, fault}
use document_generation_anek.Models.{TemplateVersion}
use document_generation_anek.Database.{Db}
use document_generation_anek.World.{World, transaction}
use document_generation_anek.Billing.Store.{
  organization_by_id, subscription_of, meter_by_period, plan_by_id, adjust_storage_bytes,
  set_template_count,
}
use document_generation_anek.Billing.Renewal.{roll_forward}
use document_generation_anek.Billing.Snapshot.{
  ensure_subscription, ensure_meter, ensure_snapshot, with_snapshot,
}
use document_generation_anek.Billing.Limits.{
  check_storage, enforce_storage_delta_allowed, record_storage_usage, count_storage,
  sync_template_count, sync_templates,
}
use document_generation_anek.StorageKeys.{template_key}
use document_generation_anek.Storage.{upload_template as put_template, delete_object}
use document_generation_anek.Security.Uploads.{Upload, sanitize_file_name, validate_template_upload}
use document_generation_anek.Templates.{
  scalar_one_or_none, get_by_id, get_by_code, save_template, get_by_template_and_version,
  add_current_version, get_current_for_template,
}
use document_generation_anek.Templates.Versions.{
  AtMostOneCurrent, add_current_version-AtMostOneCurrent,
}
use document_generation_anek.Templates.Code.{normalize_code, squeeze}
use document_generation_anek.Templates.Code.Slug.{
  IsSlug, is_plain, other, dashed, normalize_code-IsSlug,
}
use document_generation_anek.Templates.Extraction.{
  iter_docx_text_parts, extract_schema, variable_index,
}
use document_generation_anek.Templates.Extraction.Counts.{
  count_in, AddsNone, variable_index-count_in,
}
use document_generation_anek.Templates.Responses.{serialize_template_detail, template_response}
use document_generation_anek.Templates.Service.{
  TemplateServices, is_unpublished_of, keep_published, get_template,
}
use document_generation_anek.Templates.Service.Published.{get_template-published}
use document_generation_anek.Templates.Ingestion.{
  UploadRequest, upload_template, upload_file, template_for_version, get_or_create_template,
}
use document_generation_anek.Templates.Ingestion.Leftovers.{upload_template-leaves_no_file}
use document_generation_anek.Fixtures.Outside.{
  Objects, letters, tools, laws, shop, letter, first_version,
}

abbrev newest : ℕ → TemplateVersion
newest id = record first_version { id = id; version = codes "3" }

single : AtMostOneCurrent shop.db
single t = ground arith

add_current_version-AtMostOneCurrent_example :
    (db' : Db) × (add_current_version 1 newest shop.db ≡ ok (newest 100, db'))
    × (get_current_for_template 1 db' ≡ ok (some (newest 100), db'))
    × AtMostOneCurrent db'
add_current_version-AtMostOneCurrent_example =
    add_current_version-AtMostOneCurrent 1 newest shop.db refl refl single

abbrev request : UploadRequest
request = record {
  organization_id = 7;
  name = codes "Letter";
  code = codes "letter";
  version = codes "1";
  description = none;
  notes = none;
  current_user_id = 5;
  publish = true;
}

abbrev file : Upload
file = record { file_name = codes "letter.docx"; content_type = none; content = 1 ∷ 2 ∷ [] }

refused : upload_template tools request file shop ≡ (err conflict, shop)
unfolding upload_template validate_template_upload sanitize_file_name extract_schema
    iter_docx_text_parts upload_file organization_by_id subscription_of meter_by_period plan_by_id
    roll_forward ensure_subscription ensure_meter ensure_snapshot with_snapshot check_storage
    enforce_storage_delta_allowed template_for_version get_or_create_template normalize_code squeeze
    get_by_code scalar_one_or_none save_template get_by_template_and_version
refused = refl

-- the database refuses the COMMIT of an upload, after the file was stored
abbrev unlucky : TemplateServices Objects
unlucky = record tools { commit_answer = λ db. err fault }

abbrev second : UploadRequest
second = record request { version = codes "9" }

abbrev after : World Objects
after = (upload_template unlucky second file shop).1

commit_refused : upload_template unlucky second file shop ≡ (err fault, after)
unfolding upload_template validate_template_upload sanitize_file_name extract_schema
    iter_docx_text_parts upload_file organization_by_id subscription_of meter_by_period plan_by_id
    roll_forward ensure_subscription ensure_meter ensure_snapshot with_snapshot check_storage
    enforce_storage_delta_allowed template_for_version get_or_create_template normalize_code squeeze
    get_by_code scalar_one_or_none save_template get_by_template_and_version put_template
    template_key add_current_version record_storage_usage count_storage adjust_storage_bytes
    sync_template_count sync_templates set_template_count delete_object
commit_refused = refl

upload_template-leaves_no_file_example :
    laws.holds (codes "templates/acme/letter/9/letter.docx") after.objects ≡ false
upload_template-leaves_no_file_example =
    upload_template-leaves_no_file unlucky second laws file shop after fault commit_refused
      (codes "templates/acme/letter/9/letter.docx") refl

normalize_code-IsSlug_example :
    ((s : Text) × (normalize_code (λ s. s) (codes " my__letter-") ≡ ok s) × IsSlug is_plain s)
    ⊎ ((normalize_code (λ s. s) (codes " my__letter-") ≡ err validation)
        × (any other (dashed (λ s. s) (codes " my__letter-")) ≡ false))
normalize_code-IsSlug_example = normalize_code-IsSlug (λ s. s) (codes " my__letter-")

slug : normalize_code (λ s. s) (codes " my__letter-") ≡ ok (codes "my-letter")
unfolding normalize_code squeeze
slug = refl

abbrev matches : List (Text × Text)
matches =
    (codes "word/document.xml", codes "name")
    ∷ (codes "word/document.xml", codes "date")
    ∷ (codes "word/header1.xml", codes "name")
    ∷ []

variable_index-count_in_example :
    (count_in (variable_index letters matches []) (codes "name")
      ≡ count_by (λ m. text_eq m.1 (codes "name")) matches + count_in [] (codes "name"))
    × AddsNone letters matches [] (codes "name") (any (λ m. text_eq m.1 (codes "name")) matches)
variable_index-count_in_example = variable_index-count_in letters matches [] (codes "name")

reading : get_template 7 1 true shop ≡ (
  ok (serialize_template_detail letter (first_version ∷ [])),
  record shop { db = record shop.db { versions = first_version ∷ [] } },
)
unfolding get_template transaction get_by_id scalar_one_or_none keep_published
    serialize_template_detail template_response
reading = refl

get_template-published_example :
    first_version ∷ [] ≡ select (λ v. not (is_unpublished_of 1 v)) shop.db.versions
unfolding serialize_template_detail template_response
get_template-published_example =
    get_template-published 7 1 shop
      (record shop { db = record shop.db { versions = first_version ∷ [] } })
      (serialize_template_detail letter (first_version ∷ [])) reading
