-- ===== src/Fixtures/Outside.antt =====
-- The world of the examples: an object store that is a dict, the libraries, and tables with a template.
use Prim.Native.String.{String}
use document_generation_anek.Prelude.{
  ◌≡◌, refl, sym, ap, ◌∙◌, Bool, true, false, Option, none, some, [], ◌∷◌, is_some, if◌then◌else◌,
}
use document_generation_anek.Text.{Text, codes, text_eq, text_eq→eq, text_eq_self}
use document_generation_anek.Json.{Dict, get, put, str}
use document_generation_anek.Json.Entries.{get-put_other}
use document_generation_anek.Schema.{ImportBinding, empty_schema}
use document_generation_anek.Models.{
  Template, active, TemplateVersion, DocumentJob, queued, import_input,
}
use document_generation_anek.Result.{Error, Result, ok, err, s3_error}
use document_generation_anek.Billing.Renewal.{Clock}
use document_generation_anek.Docx.{run, Document, no_tables}
use document_generation_anek.Storage.{Bytes, MinioClient, StorageSettings}
use document_generation_anek.Storage.Laws.{StoreLaws}
use document_generation_anek.World.{World}
use document_generation_anek.Import.Labels.{Unicode}
use document_generation_anek.Import.Candidates.{DocxLibrary}
use document_generation_anek.Templates.Service.{TemplateServices}
use document_generation_anek.Documents.Services.{Services}
use document_generation_anek.Fixtures.{acme, alice, job_row, billing, january}

abbrev pub Objects : Type 0
Objects = Dict Bytes

abbrev read : Option Bytes → Objects → Result Bytes × Objects
read none o = (err s3_error, o)
read (some c) o = (ok c, o)

abbrev pub remove : Text → Objects → Objects
remove k [] = []
remove k ((j, c) ∷ o) = let rest = remove k o in if text_eq j k then rest else (j, c) ∷ rest

abbrev pub client : MinioClient Objects
client = record {
  bucket_exists = λ o. (ok true, o);
  make_bucket = λ o. (ok tt, o);
  put_object = λ key c t o. (ok tt, put key c o);
  get_object = λ key o. read (get key o) o;
  remove_object = λ key o. (ok tt, remove key o);
  presigned_get_object = λ key o. (ok key, o);
}

abbrev pub holds : Text → Objects → Bool
holds k o = is_some (get k o)

pub other : (k key : Text) → text_eq k key ≡ false → text_eq key k ≡ false
other k key h = go (text_eq key k) refl
  where
    go : (b : Bool) → text_eq key k ≡ b → b ≡ false
    go true e = sym (text_eq_self k) ∙ (sym (ap (text_eq k) (text_eq→eq key k e)) ∙ h)
    go false e = refl

pub removed : (key : Text) (o : Objects) → holds key (remove key o) ≡ false
removed key [] = refl
removed key ((j, c) ∷ o) = go (text_eq j key) refl (removed key o)
  where
    go :
        (b : Bool)
        → text_eq j key ≡ b
        → holds key (remove key o) ≡ false
        → holds key (if b then remove key o else (j, c) ∷ remove key o) ≡ false
    go true e h = h
    go false e h = rw e h

pub removed_more :
    (key : Text) (o : Objects) (k : Text) → holds k o ≡ false → holds k (remove key o) ≡ false
removed_more key [] k h = refl
removed_more key ((j, c) ∷ o) k h = go (text_eq j k) (text_eq j key) refl h (removed_more key o k)
  where
    go :
        (a b : Bool)
        → text_eq j k ≡ a
        → is_some (if a then some c else get k o) ≡ false
        → (holds k o ≡ false → holds k (remove key o) ≡ false)
        → holds k (if b then remove key o else (j, c) ∷ remove key o) ≡ false
    go true b e q f = absurd (cc)
    go false true e q f = f q
    go false false e q f = rw e (f q)

pub accepted :
    (key : Text) (c : Bytes) (t : String) (o : Objects) (e : Error) (k : Text)
    → (client.put_object key c t o).0 ≡ err e
    → holds k (client.put_object key c t o).1 ≡ holds k o
accepted key c t o e k h = absurd (cc)

abbrev pub laws : StoreLaws client
laws = record {
  holds = holds;
  exists_keeps = λ k o. refl;
  make_keeps = λ k o. refl;
  put_others = λ key c t o k h. ap is_some (get-put_other key k c o (other k key h));
  put_fails = accepted;
  remove_succeeds = λ key o. refl;
  remove_own = removed;
  remove_others = removed_more;
}

abbrev pub letters : Unicode
letters = record {
  lower = λ s. s;
  title = λ s. s;
  digit = λ c. false;
  sha1 = λ s. codes "0a1b2c3d4e5f";
}

-- one paragraph, "Name: ____"
abbrev pub form : Document
form = record {
  body = record {
    paragraphs = record { id = 1; content = run (codes "Name: ") ∷ run (codes "____") ∷ [] } ∷ [];
    tables = no_tables;
  };
  sections = [];
}

abbrev pub docx_library : DocxLibrary
docx_library = record {
  is_zipfile = λ content. true;
  load_docx_document = λ content. ok form;
  sha256 = λ content. "digest";
}

abbrev pub settings : StorageSettings
settings = record {
  templates_prefix = codes "templates";
  artifacts_prefix = codes "artifacts";
  previews_prefix = codes "previews";
  cache_prefix = codes "cache";
  auto_create_bucket = true;
}

abbrev pub clock : Clock
clock = record { now = 1000; today = january }

abbrev pub tools : TemplateServices Objects
tools = record {
  client = client;
  storage_settings = settings;
  clock = clock;
  docx = docx_library;
  packages = record { entries = λ content. some []; itertext = λ content. some [] };
  unicode = letters;
  max_upload_size_bytes = 100;
  commit_answer = λ db. ok tt;
}

abbrev pub binding : ImportBinding
binding = record {
  id = codes "binding-1";
  candidate_id = codes "c1";
  binding_key = codes "name";
  label = codes "Name";
  raw_fragment = codes "____";
  paragraph_path = codes "body/p/0";
  value_type = "string";
  component_type = "text";
  required = true;
  sample_value = none;
  fragment_start = 6;
  fragment_end = 10;
}

abbrev pub letter : Template
letter = record {
  id = 1;
  organization_id = 7;
  name = codes "Letter";
  code = codes "letter";
  description = none;
  status = active;
}

abbrev pub first_version : TemplateVersion
first_version = record {
  id = 2;
  template_id = 1;
  created_by_user_id = none;
  version = codes "1";
  original_filename = codes "letter.docx";
  storage_key = codes "k";
  size_bytes = some 10;
  checksum = none;
  variable_schema = empty_schema;
  component_schema = [];
  render_strategy = "docx_import";
  import_bindings = binding ∷ [];
  notes = none;
  is_published = true;
  is_current = true;
}

abbrev pub draft_version : TemplateVersion
draft_version = record first_version {
  id = 8;
  version = codes "2";
  is_published = false;
  is_current = false;
}

abbrev pub waiting : DocumentJob
waiting = record (job_row 9 queued) {
  input_payload = import_input ((codes "name", str (codes "Alice")) ∷ []);
}

-- an organization with a plan, a template with a published version and a draft, and a queued job
abbrev pub shop : World Objects
shop = record {
  db = record billing {
    organizations = acme ∷ [];
    templates = letter ∷ [];
    versions = first_version ∷ draft_version ∷ [];
    users = alice ∷ [];
    jobs = waiting ∷ [];
  };
  objects = (codes "k", 1 ∷ 2 ∷ []) ∷ [];
}

abbrev pub machinery : Services Objects
machinery = record {
  client = client;
  send = λ job_id o. (ok tt, o);
  storage_settings = settings;
  clock = clock;
  now = 1000;
  artifact_retention = 500;
  stale_job_timeout = 60;
  max_upload_size_bytes = 100;
  max_image_size_bytes = 100;
  locked = λ id. false;
  uuid_text = λ id. codes "9";
  sha256 = λ content. "digest";
  digest = λ id constructor payload. "key";
  import_digest = λ strategy id payload. "key";
  uuid_string = λ id. "2";
  error_text = λ e. "error";
  load_docx_document = λ content. ok form;
  save = λ document runs. 1 ∷ 2 ∷ 3 ∷ [];
  compose = λ document. ok (1 ∷ []);
  render_pdf = λ document. ok (2 ∷ []);
}
