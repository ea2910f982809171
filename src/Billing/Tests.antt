-- ===== src/Billing/Tests.antt =====
-- Examples of the billing properties.
use document_generation_anek.Prelude.{
  ℕ, ◌+◌, ◌≤◌, ◌<◌, ◌≡◌, ◌⊎◌, refl, true, none, some, List, [], ◌∷◌, arith,
}
use document_generation_anek.Prelude.Int.{pos}
use document_generation_anek.Constructor.{DocumentBlock, spacer, signature_block_count}
use document_generation_anek.Models.{OrganizationPlan, OrganizationUsageMeter}
use document_generation_anek.Result.{ok}
use document_generation_anek.Database.{Db, ◌>>◌}
use document_generation_anek.Fixtures.{march_day, starter, pro, subscription, meter, billing}
use document_generation_anek.Text.{codes}
use document_generation_anek.Json.{null}
use document_generation_anek.Billing.Store.{
  set_pending_plan, count_templates, invoice_by_period, meter_by_period, plan_by_id, create_invoice,
  increment_generation, adjust_storage_bytes, set_template_count,
}
use document_generation_anek.Billing.Renewal.{
  Clock, invoice_row, issue_invoice, roll_forward, resolve_usage_summary, issue_unless_found,
}
use document_generation_anek.Billing.Snapshot.{BillingSnapshot}
use document_generation_anek.Billing.Limits.{
  signature_feature, check_generation, count_generation, check_storage, count_storage,
  check_template_creation,
}
use document_generation_anek.Billing.Invoices.{IsSingle, issue_invoice-IsSingle}
use document_generation_anek.Billing.Rolling.{Ready, Rolled, renewed_times, roll_forward-Rolled}
use document_generation_anek.Billing.Metering.{
  meter_in, used, generation_within_cap, storage_within_quota,
}
use document_generation_anek.Billing.PlanChange.{plan_change_at_renewal}

abbrev clock : Clock
clock = record { now = 1000; today = march_day }

single : IsSingle billing
single o a b = omega arith

ready : Ready subscription billing
ready = record {
  found = refl;
  plan = starter;
  planned = refl;
  next_plan = starter;
  next_planned = refl;
  valid = omega arith;
  single = single;
}

roll_forward-Rolled_example :
    (n : ℕ) × (db' : Db) × (roll_forward clock none subscription billing
      ≡ ok ((renewed_times n subscription, n), db'))
    × Rolled march_day subscription n billing db'
roll_forward-Rolled_example =
    roll_forward-Rolled clock none subscription billing (omega arith) ready

abbrev scheduled : OrganizationPlan
scheduled = record subscription { pending_plan_definition_id = some 2 }

abbrev with_change : Db
with_change = record billing { subscriptions = scheduled ∷ [] }

scheduling : set_pending_plan 2 subscription billing ≡ ok (scheduled, with_change)
unfolding set_pending_plan
scheduling = refl

plan_change_at_renewal_example :
    (u : OrganizationPlan) × (n : ℕ) × (db' : Db) × (roll_forward clock none scheduled with_change
      ≡ ok ((u, n), db'))
    × (((n ≡ 0) × (u.plan_definition_id ≡ 1) × (u.pending_plan_definition_id ≡ some 2))
        ⊎ ((0 < n) × (u.plan_definition_id ≡ 2) × (u.pending_plan_definition_id ≡ none)))
plan_change_at_renewal_example =
    plan_change_at_renewal clock none pro subscription scheduled billing with_change (omega arith)
      ready refl scheduling

abbrev snapshot : BillingSnapshot
snapshot = record { plan = starter; subscription = subscription; usage_meter = meter }

abbrev invoiced : Db
unfolding invoice_row
invoiced = record billing {
  next_id = 101;
  invoices = invoice_row clock subscription starter meter 100 ∷ [];
}

issuing :
    issue_invoice clock subscription billing
    ≡ ok (invoice_row clock subscription starter meter 100, invoiced)
unfolding issue_invoice issue_unless_found invoice_row invoiced resolve_usage_summary
    invoice_by_period meter_by_period plan_by_id create_invoice
issuing = refl

issue_invoice-IsSingle_example : IsSingle invoiced
issue_invoice-IsSingle_example =
    issue_invoice-IsSingle clock subscription starter
      (invoice_row clock subscription starter meter 100) billing invoiced refl issuing single

abbrev blocks : List DocumentBlock
blocks = spacer (codes "s") null ∷ []

abbrev one_more : Db
one_more = record billing { meters = record meter { generation_count = 3 } ∷ [] }

generating :
    (check_generation blocks snapshot >> count_generation blocks snapshot) billing
    ≡ ok (tt, one_more)
unfolding check_generation count_generation increment_generation
generating = refl

generation_within_cap_example :
    (m : OrganizationUsageMeter) × (meter_in one_more 4 ≡ some m)
    × (m.generation_count ≡ meter.generation_count + 1)
    × (m.generation_count ≤ 10)
    × (used signature_feature m.premium_feature_usage
        ≡ used signature_feature meter.premium_feature_usage + signature_block_count blocks)
    × ((starter.signature_support ≡ true) ⊎ (signature_block_count blocks ≡ 0))
generation_within_cap_example =
    generation_within_cap blocks snapshot billing one_more refl generating

abbrev stored : Db
stored = record billing { meters = record meter { storage_bytes = 90 } ∷ [] }

storing : (check_storage 40 snapshot >> count_storage (pos 40) snapshot) billing ≡ ok (tt, stored)
unfolding check_storage count_storage adjust_storage_bytes
storing = refl

storage_within_quota_example :
    (m : OrganizationUsageMeter) × (meter_in stored 4 ≡ some m)
    × (m.storage_bytes ≡ meter.storage_bytes + 40)
    × (m.storage_bytes ≤ 1000)
storage_within_quota_example =
    storage_within_quota 40 snapshot billing stored (omega arith) refl storing

template_check : check_template_creation snapshot billing ≡ ok (tt, billing)
unfolding check_template_creation set_template_count count_templates
template_check = refl
