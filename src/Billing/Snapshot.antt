-- ===== src/Billing/Snapshot.antt =====
-- `_ensure_snapshot` and `_with_snapshot`: the plan, the subscription and the meter of the period.
use document_generation_anek.Prelude.{ℕ, Option, none, some, []}
use document_generation_anek.Calendar.{current_period_bounds}
use document_generation_anek.Models.{PlanDefinition, OrganizationPlan, OrganizationUsageMeter}
use document_generation_anek.Result.{not_found, fault}
use document_generation_anek.Database.{Db, Tx, pure, or_raise, ◌>>=◌, ◌>>◌}
use document_generation_anek.Billing.Store.{
  organization_by_id, plan_by_code, plan_by_id, subscription_of, create_subscription,
  meter_by_period, create_meter, current_storage_bytes, count_templates, count_active_users,
}
use document_generation_anek.Billing.Renewal.{Clock, roll_forward}

pub record BillingSnapshot : Type 0 where
  pub plan : PlanDefinition
  pub subscription : OrganizationPlan
  pub usage_meter : OrganizationUsageMeter

-- the row of a first subscription, on the default plan for the calendar month
unfoldable pub default_subscription : Clock → ℕ → ℕ → ℕ → OrganizationPlan
default_subscription clock organization_id plan_id id =
    let (period_start, period_end) = current_period_bounds clock.today in
    record {
      id = id;
      organization_id = organization_id;
      plan_definition_id = plan_id;
      pending_plan_definition_id = none;
      status = "active";
      current_period_start = period_start;
      current_period_end = period_end;
    }

unfoldable pub ensure_subscription : Clock → ℕ → Option OrganizationPlan → Tx OrganizationPlan
unfolding default_subscription
ensure_subscription clock organization_id none = do
  default ← plan_by_code "starter"
  default_plan ← or_raise default not_found
  create_subscription (default_subscription clock organization_id default_plan.id)
  subscription ← subscription_of organization_id
  or_raise subscription not_found
ensure_subscription clock organization_id (some s) = do
  rolled ← roll_forward clock none s
  pure rolled.0

-- the row of a new meter, counted from the tables
unfoldable pub new_meter : Db → ℕ → OrganizationPlan → ℕ → OrganizationUsageMeter
new_meter db organization_id s id = record {
  id = id;
  organization_id = organization_id;
  period_start = s.current_period_start;
  period_end = s.current_period_end;
  generation_count = 0;
  storage_bytes = current_storage_bytes organization_id db;
  template_count = count_templates organization_id db;
  user_count = count_active_users organization_id db;
  premium_feature_usage = [];
}

unfoldable pub ensure_meter :
    ℕ → OrganizationPlan → Option OrganizationUsageMeter → Tx OrganizationUsageMeter
unfolding new_meter
ensure_meter organization_id s (some m) db = pure m db
ensure_meter organization_id s none db = create_meter (new_meter db organization_id s) db

-- BillingService._ensure_snapshot
unfoldable pub ensure_snapshot : Clock → ℕ → Tx BillingSnapshot
unfolding ensure_subscription ensure_meter
ensure_snapshot clock organization_id = do
  organization ← organization_by_id organization_id
  or_raise organization not_found
  current ← subscription_of organization_id
  subscription ← ensure_subscription clock organization_id current
  found ← meter_by_period organization_id subscription.current_period_start
  usage_meter ← ensure_meter organization_id subscription found
  plan ← plan_by_id subscription.plan_definition_id
  plan' ← or_raise plan fault
  pure (record { plan = plan'; subscription = subscription; usage_meter = usage_meter })

-- BillingService._with_snapshot, inside the caller's session
unfoldable pub with_snapshot : {A : Type 0} → Clock → ℕ → (BillingSnapshot → Tx A) → Tx A
unfolding ensure_snapshot
with_snapshot clock organization_id action = do
  snapshot ← ensure_snapshot clock organization_id
  action snapshot
