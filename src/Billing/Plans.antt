-- ===== src/Billing/Plans.antt =====
-- `schedule_plan_change` and `run_billing_cycle`.
use Prim.Native.String.{String}
use document_generation_anek.Prelude.{
  ℕ, ◌+◌, not, Option, none, some, List, [], ◌∷◌, ◌++◌, is_some, ltb, ◌==◌, if◌then◌else◌, or_else,
}
use document_generation_anek.Calendar.{Date}
use document_generation_anek.Models.{OrganizationPlan}
use document_generation_anek.Result.{not_found}
use document_generation_anek.Database.{Tx, pure, raise_if, or_raise, ◌>>=◌, ◌>>◌}
use document_generation_anek.Billing.Store.{
  plan_by_code, subscription_of, set_pending_plan, list_due_for_renewal,
}
use document_generation_anek.Billing.Renewal.{Clock, roll_forward}
use document_generation_anek.Billing.Snapshot.{BillingSnapshot, ensure_snapshot}
use document_generation_anek.Billing.Limits.{refresh_usage}

-- BillingService._schedule_plan_change, on a normalized code
unfoldable pub schedule_plan_change : Clock → ℕ → String → Tx BillingSnapshot
schedule_plan_change clock organization_id target_plan_code = do
  snapshot ← ensure_snapshot clock organization_id
  found ← plan_by_code target_plan_code
  target ← or_raise found not_found
  raise_if (not target.is_active) not_found
  if snapshot.subscription.plan_definition_id == target.id
      then (if is_some snapshot.subscription.pending_plan_definition_id
          then (do
            set_pending_plan target.id snapshot.subscription
            ensure_snapshot clock organization_id)
          else refresh_usage snapshot)
      else (do
        set_pending_plan target.id snapshot.subscription
        ensure_snapshot clock organization_id)

pub record BillingCycleRunResult : Type 0 where
  pub finalized_invoice_count : ℕ
  pub renewed_subscription_count : ℕ
  pub billed_organization_ids : List ℕ

abbrev pub nothing_billed : BillingCycleRunResult
nothing_billed = record {
  finalized_invoice_count = 0;
  renewed_subscription_count = 0;
  billed_organization_ids = [];
}

-- the loop's accumulators after one subscription
unfoldable pub add_invoices : ℕ → ℕ → BillingCycleRunResult → BillingCycleRunResult
add_invoices organization_id created r =
    if ltb 0 created
    then record {
      finalized_invoice_count = r.finalized_invoice_count + created;
      renewed_subscription_count = r.renewed_subscription_count + created;
      billed_organization_ids = r.billed_organization_ids ++ organization_id ∷ [];
    }
    else r

unfoldable pub roll_all :
    Clock → Date → List OrganizationPlan → BillingCycleRunResult → Tx BillingCycleRunResult
unfolding add_invoices
roll_all clock as_of [] r = pure r
roll_all clock as_of (s ∷ rest) r = roll_forward clock (some as_of) s >>= λ rolled.
    roll_all clock as_of rest (add_invoices s.organization_id rolled.1 r)

unfoldable pub roll_one : Clock → Date → ℕ → Option OrganizationPlan → Tx BillingCycleRunResult
unfolding add_invoices
roll_one clock as_of organization_id none = pure nothing_billed
roll_one clock as_of organization_id (some s) = do
  rolled ← roll_forward clock (some as_of) s
  pure (add_invoices organization_id rolled.1 nothing_billed)

-- BillingService._run_billing_cycle, for one organization or for every due subscription
unfoldable pub run_billing_cycle : Clock → Option ℕ → Option Date → Tx BillingCycleRunResult
unfolding roll_one roll_all
run_billing_cycle clock (some organization_id) as_of = do
  subscription ← subscription_of organization_id
  roll_one clock (or_else as_of clock.today) organization_id subscription
run_billing_cycle clock none as_of = do
  due ← list_due_for_renewal (or_else as_of clock.today)
  roll_all clock (or_else as_of clock.today) due nothing_billed
