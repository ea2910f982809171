-- ===== src/Fixtures.antt =====
-- The concrete tables that the modules of examples start from.
pub mod Outside
use document_generation_anek.Prelude.{ℕ, true, false, none, some, [], ◌∷◌}
use document_generation_anek.Calendar.{Date}
use document_generation_anek.Models.{
  DocumentJobStatus, DocumentJob, Organization, PlanDefinition, OrganizationPlan,
  OrganizationUsageMeter, OrganizationMembership, User, manager, import_input,
}
use document_generation_anek.Text.{codes}
use document_generation_anek.Database.{Db}

abbrev pub empty : Db
empty = record {
  next_id = 100;
  organizations = [];
  plans = [];
  subscriptions = [];
  meters = [];
  invoices = [];
  templates = [];
  versions = [];
  users = [];
  jobs = [];
  artifacts = [];
  audit = [];
  sessions = [];
  api_keys = [];
  usage_logs = [];
}

abbrev pub acme : Organization
acme = record { id = 7; code = codes "acme"; is_active = true }

abbrev pub member : OrganizationMembership
member = record {
  id = 1;
  organization_id = 7;
  role = manager;
  is_active = true;
  is_default = true;
  organization = some acme;
}

abbrev pub alice : User
alice = record {
  id = 5;
  email = "alice@acme.kz";
  password_hash = "hash";
  is_active = true;
  last_login_at = none;
  memberships = member ∷ [];
}

-- a job of organization 7 in the given state
abbrev pub job_row : ℕ → DocumentJobStatus → DocumentJob
job_row id status = record {
  id = id;
  organization_id = 7;
  template_id = 1;
  template_version_id = 2;
  requested_by_user_id = none;
  status = status;
  input_payload = import_input [];
  normalized_payload = none;
  cache_key = some "key";
  error_message = none;
  started_at = none;
  completed_at = none;
}

abbrev pub january : Date
january = record { year = 2025; month = 1; day = 1 }

abbrev pub february : Date
february = record { year = 2025; month = 2; day = 1 }

abbrev pub march_day : Date
march_day = record { year = 2025; month = 3; day = 10 }

abbrev pub starter : PlanDefinition
starter = record {
  id = 1;
  code = "starter";
  monthly_generation_cap = 10;
  max_templates = 5;
  storage_quota_bytes = 1000;
  monthly_price_cents = 900;
  audit_retention_days = 30;
  signature_support = false;
  is_active = true;
}

abbrev pub pro : PlanDefinition
pro = record starter { id = 2; code = "pro"; signature_support = true }

abbrev pub subscription : OrganizationPlan
subscription = record {
  id = 3;
  organization_id = 7;
  plan_definition_id = 1;
  pending_plan_definition_id = none;
  status = "active";
  current_period_start = january;
  current_period_end = february;
}

abbrev pub meter : OrganizationUsageMeter
meter = record {
  id = 4;
  organization_id = 7;
  period_start = january;
  period_end = february;
  generation_count = 2;
  storage_bytes = 50;
  template_count = 0;
  user_count = 1;
  premium_feature_usage = [];
}

abbrev pub billing : Db
billing = record empty {
  plans = starter ∷ pro ∷ [];
  subscriptions = subscription ∷ [];
  meters = meter ∷ [];
}
