-- ===== src/Billing/Store.antt =====
-- The repositories of plans, subscriptions, usage meters and invoices, and the counts that the
-- billing service takes from the other tables.
use Prim.Native.String.{String}
use text.Mathlib.Text.{◌==◌ as str_eq}
use mathlib.Core.List.{reverse}
use document_generation_anek.Prelude.{
  ℕ, suc, ◌+◌, Bool, ◌&&◌, Option, some, List, [], ◌∷◌, ◌++◌, ◌==◌, or_else, length, any, take,
  find, select, update, sort_by,
}
use document_generation_anek.Prelude.Int.{ℤ, add_clamped}
use document_generation_anek.Json.{get, put}
use document_generation_anek.Text.{Text}
use document_generation_anek.Calendar.{Date, date_le, date_eq}
use document_generation_anek.Models.{
  Organization, PlanDefinition, OrganizationPlan, OrganizationUsageMeter, BillingInvoice,
}
use document_generation_anek.Database.{Db, Tx, pure, gets}

unfoldable pub organization_by_id : ℕ → Tx (Option Organization)
organization_by_id organization_id = gets λ db. find (λ o. o.id == organization_id) db.organizations

-- PlanDefinitionRepository
unfoldable pub plan_by_code : String → Tx (Option PlanDefinition)
plan_by_code code = gets λ db. find (λ p. str_eq p.code code) db.plans

-- the relationship `subscription.plan`, by its foreign key
unfoldable pub plan_by_id : ℕ → Tx (Option PlanDefinition)
plan_by_id plan_id = gets λ db. find (λ p. p.id == plan_id) db.plans

-- OrganizationPlanRepository
unfoldable pub subscription_of : ℕ → Tx (Option OrganizationPlan)
subscription_of organization_id =
    gets λ db. find (λ s. s.organization_id == organization_id) db.subscriptions

-- `make` is the row without its primary key
unfoldable pub create_subscription : (ℕ → OrganizationPlan) → Tx OrganizationPlan
create_subscription make db = pure (make db.next_id) (record db {
  next_id = suc db.next_id;
  subscriptions = db.subscriptions ++ make db.next_id ∷ [];
})

abbrev pub save_subscription :
    (OrganizationPlan → OrganizationPlan) → OrganizationPlan → Tx OrganizationPlan
save_subscription f s db =
    pure (f s) (record db { subscriptions = update (λ r. r.id == s.id) f db.subscriptions })

-- the writes of `update_period`
unfoldable pub renewed_row : Date → Date → Option ℕ → Option ℕ → OrganizationPlan → OrganizationPlan
renewed_row period_start period_end plan_id pending s = record s {
  plan_definition_id = or_else plan_id s.plan_definition_id;
  pending_plan_definition_id = pending;
  current_period_start = period_start;
  current_period_end = period_end;
}

unfoldable pub update_period :
    Date → Date → Option ℕ → Option ℕ → OrganizationPlan → Tx OrganizationPlan
unfolding renewed_row
update_period period_start period_end plan_id pending =
    save_subscription (renewed_row period_start period_end plan_id pending)

-- OrganizationPlanRepository.schedule_plan_change
unfoldable pub set_pending_plan : ℕ → OrganizationPlan → Tx OrganizationPlan
set_pending_plan plan_id =
    save_subscription (λ s. record s { pending_plan_definition_id = some plan_id })

-- rows of equal `current_period_end` stay in the order of creation
unfoldable pub list_due_for_renewal : Date → Tx (List OrganizationPlan)
list_due_for_renewal as_of = gets λ db.
    sort_by (λ a b. date_le a.current_period_end b.current_period_end)
      (select (λ s. str_eq s.status "active" && date_le s.current_period_end as_of)
        db.subscriptions)

-- OrganizationUsageMeterRepository
abbrev pub is_meter : ℕ → Date → OrganizationUsageMeter → Bool
is_meter organization_id period_start m =
    m.organization_id == organization_id && date_eq m.period_start period_start

unfoldable pub meter_by_period : ℕ → Date → Tx (Option OrganizationUsageMeter)
meter_by_period organization_id period_start =
    gets λ db. find (is_meter organization_id period_start) db.meters

unfoldable pub create_meter : (ℕ → OrganizationUsageMeter) → Tx OrganizationUsageMeter
create_meter make db =
    pure (make db.next_id)
      (record db { next_id = suc db.next_id; meters = db.meters ++ make db.next_id ∷ [] })

abbrev pub save_meter :
    (OrganizationUsageMeter → OrganizationUsageMeter)
    → OrganizationUsageMeter
    → Tx OrganizationUsageMeter
save_meter f m db = pure (f m) (record db { meters = update (λ r. r.id == m.id) f db.meters })

unfoldable pub increment_generation : OrganizationUsageMeter → Tx OrganizationUsageMeter
increment_generation = save_meter (λ m. record m { generation_count = m.generation_count + 1 })

unfoldable pub adjust_storage_bytes : ℤ → OrganizationUsageMeter → Tx OrganizationUsageMeter
adjust_storage_bytes delta_bytes =
    save_meter (λ m. record m { storage_bytes = add_clamped m.storage_bytes delta_bytes })

-- a count is never negative, so `max(0, count)` is the count
unfoldable pub set_template_count : ℕ → OrganizationUsageMeter → Tx OrganizationUsageMeter
set_template_count n = save_meter (λ m. record m { template_count = n })

unfoldable pub set_user_count : ℕ → OrganizationUsageMeter → Tx OrganizationUsageMeter
set_user_count n = save_meter (λ m. record m { user_count = n })

unfoldable pub increment_premium_feature :
    Text → ℕ → OrganizationUsageMeter → Tx OrganizationUsageMeter
increment_premium_feature key amount = save_meter λ m. record m {
  premium_feature_usage =
      put key (or_else (get key m.premium_feature_usage) 0 + amount) m.premium_feature_usage;
}

-- BillingInvoiceRepository
abbrev pub is_invoice : ℕ → Date → Date → BillingInvoice → Bool
is_invoice organization_id period_start period_end i =
    i.organization_id == organization_id
    && date_eq i.period_start period_start
    && date_eq i.period_end period_end

unfoldable pub invoice_by_period : ℕ → Date → Date → Tx (Option BillingInvoice)
invoice_by_period organization_id period_start period_end =
    gets λ db. find (is_invoice organization_id period_start period_end) db.invoices

unfoldable pub create_invoice : (ℕ → BillingInvoice) → Tx BillingInvoice
create_invoice make db =
    pure (make db.next_id)
      (record db { next_id = suc db.next_id; invoices = db.invoices ++ make db.next_id ∷ [] })

-- newest period first, and newest row first within a period
unfoldable pub invoices_of : ℕ → ℕ → Tx (List BillingInvoice)
invoices_of organization_id limit = gets λ db. take limit (
    sort_by (λ a b. date_le b.period_start a.period_start)
      (reverse (select (λ i. i.organization_id == organization_id) db.invoices)))

-- TemplateRepository.count_by_organization
unfoldable pub count_templates : ℕ → Db → ℕ
count_templates organization_id db =
    length (select (λ t. t.organization_id == organization_id) db.templates)

-- UserRepository.count_active_for_organization
unfoldable pub count_active_users : ℕ → Db → ℕ
count_active_users organization_id db = length (
    select
      (λ u.
        u.is_active && any (λ m. m.organization_id == organization_id && m.is_active) u.memberships)
      db.users)

abbrev pub total_size {ℓ} : {A : Type ℓ} → (A → Option ℕ) → List A → ℕ
total_size size [] = 0
total_size size (x ∷ xs) = or_else (size x) 0 + total_size size xs

-- TemplateVersionRepository.sum_storage_bytes_for_organization
unfoldable pub template_bytes : ℕ → Db → ℕ
template_bytes organization_id db =
    total_size (λ v. v.size_bytes)
      (select
        (λ v. any (λ t. t.id == v.template_id && t.organization_id == organization_id) db.templates)
        db.versions)

-- DocumentArtifactRepository.sum_storage_bytes_for_organization
unfoldable pub artifact_bytes : ℕ → Db → ℕ
artifact_bytes organization_id db =
    total_size (λ a. a.size_bytes) (select (λ a. a.organization_id == organization_id) db.artifacts)

-- BillingService._current_storage_bytes
unfoldable pub current_storage_bytes : ℕ → Db → ℕ
unfolding template_bytes artifact_bytes
current_storage_bytes organization_id db =
    template_bytes organization_id db + artifact_bytes organization_id db
