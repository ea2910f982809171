-- ===== src/Billing/Renewal.antt =====
-- Invoices for ended periods, and the loop that rolls a subscription forward to the billing date.
use document_generation_anek.Prelude.{
  ℕ, zero, suc, ◌+◌, ◌*◌, true, false, Option, none, some, [], or_else, if◌then◌else◌,
}
use document_generation_anek.Calendar.{Date, date_le, next_period_end, month_index}
use document_generation_anek.Models.{
  OrganizationPlan, OrganizationUsageMeter, BillingInvoice, PlanDefinition,
}
use document_generation_anek.Result.{not_found, fault}
use document_generation_anek.Database.{Tx, pure, raise, gets, or_raise, ◌>>=◌, ◌>>◌}
use document_generation_anek.Billing.Store.{
  plan_by_id, subscription_of, update_period, meter_by_period, invoice_by_period, create_invoice,
  current_storage_bytes, count_templates, count_active_users,
}

-- What `datetime.now(timezone.utc)` reads, and its date.
pub record Clock : Type 0 where
  pub now : ℕ
  pub today : Date

-- PAYMENT_TERMS_DAYS, in seconds
abbrev pub payment_terms : ℕ
payment_terms = 7 * 86400

-- `_resolve_usage_summary_for_period`: a stored meter, or one built from the current tables
unfoldable pub summary_or_current :
    OrganizationPlan → Option OrganizationUsageMeter → Tx OrganizationUsageMeter
summary_or_current s (some m) = pure m
summary_or_current s none = gets λ db. record {
  id = 0;
  organization_id = s.organization_id;
  period_start = s.current_period_start;
  period_end = s.current_period_end;
  generation_count = 0;
  storage_bytes = current_storage_bytes s.organization_id db;
  template_count = count_templates s.organization_id db;
  user_count = count_active_users s.organization_id db;
  premium_feature_usage = [];
}

unfoldable pub resolve_usage_summary : OrganizationPlan → Tx OrganizationUsageMeter
unfolding summary_or_current
resolve_usage_summary s = do
  usage_meter ← meter_by_period s.organization_id s.current_period_start
  summary_or_current s usage_meter

-- the row that is written for an ended period
unfoldable pub invoice_row :
    Clock → OrganizationPlan → PlanDefinition → OrganizationUsageMeter → ℕ → BillingInvoice
invoice_row clock s plan usage id = record {
  id = id;
  organization_id = s.organization_id;
  organization_plan_id = s.id;
  plan_definition_id = s.plan_definition_id;
  plan_code = plan.code;
  period_start = s.current_period_start;
  period_end = s.current_period_end;
  subtotal_cents = plan.monthly_price_cents;
  generation_count = usage.generation_count;
  template_count = usage.template_count;
  user_count = usage.user_count;
  storage_bytes = usage.storage_bytes;
  premium_feature_usage = usage.premium_feature_usage;
  issued_at = clock.now;
  due_at = clock.now + payment_terms;
}

unfoldable pub issue_unless_found :
    Clock → OrganizationPlan → Option BillingInvoice → Tx BillingInvoice
unfolding invoice_row
issue_unless_found clock s (some existing) = pure existing
issue_unless_found clock s none = do
  usage ← resolve_usage_summary s
  found ← plan_by_id s.plan_definition_id
  plan ← or_raise found fault
  create_invoice (invoice_row clock s plan usage)

-- BillingService._issue_invoice_for_period
unfoldable pub issue_invoice : Clock → OrganizationPlan → Tx BillingInvoice
unfolding issue_unless_found
issue_invoice clock s = do
  existing ← invoice_by_period s.organization_id s.current_period_start s.current_period_end
  issue_unless_found clock s existing

-- the body of the `while`: one invoice, and the next period
unfoldable pub renew_once : Clock → OrganizationPlan → Tx OrganizationPlan
renew_once clock s = do
  issue_invoice clock s
  updated ←
      update_period s.current_period_end (next_period_end s.current_period_end)
        (some (or_else s.pending_plan_definition_id s.plan_definition_id)) none s
  refreshed ← subscription_of updated.organization_id
  or_raise refreshed not_found

-- `fault` is raised where the fuel runs out
unfoldable pub renew_while : ℕ → Clock → Date → OrganizationPlan → ℕ → Tx (OrganizationPlan × ℕ)
renew_while zero clock date s count = raise fault
renew_while (suc fuel) clock date s count = elim (date_le s.current_period_end date) [
  | true ↦ (renew_once clock s >>= λ t. renew_while fuel clock date t (count + 1))
  | false ↦ pure (s, count)
]

-- BillingService._roll_subscription_forward_if_needed
unfoldable pub roll_forward : Clock → Option Date → OrganizationPlan → Tx (OrganizationPlan × ℕ)
roll_forward clock as_of s =
    let date = or_else as_of clock.today in
    if date_le s.current_period_end date
    then renew_while (suc (suc (month_index date))) clock date s 0
    else pure (s, 0)
