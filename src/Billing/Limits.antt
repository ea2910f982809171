-- ===== src/Billing/Limits.antt =====
-- The limit checks of the billing service, and the counters that they read.
use document_generation_anek.Text.{Text, codes}
use document_generation_anek.Prelude.{ℕ, ◌+◌, not, ◌&&◌, List, leb, ltb, ◌==◌, if◌then◌else◌}
use document_generation_anek.Prelude.Int.{ℤ}
use document_generation_anek.Constructor.{DocumentBlock, signature_block_count}
use document_generation_anek.Result.{conflict}
use document_generation_anek.Database.{Tx, pure, gets, raise_if, ◌>>=◌, ◌>>◌}
use document_generation_anek.Billing.Store.{
  increment_generation, increment_premium_feature, adjust_storage_bytes, set_template_count,
  set_user_count, count_templates, count_active_users,
}
use document_generation_anek.Billing.Renewal.{Clock}
use document_generation_anek.Billing.Snapshot.{BillingSnapshot, with_snapshot}

-- SIGNATURE_FEATURE_KEY
abbrev pub signature_feature : Text
signature_feature = codes "signature_requests"

-- BillingService._enforce_generation_allowed
unfoldable pub check_generation : List DocumentBlock → BillingSnapshot → Tx (Unit {0})
check_generation blocks s = do
  raise_if (leb s.plan.monthly_generation_cap s.usage_meter.generation_count) conflict
  raise_if (ltb 0 (signature_block_count blocks) && not s.plan.signature_support) conflict

-- BillingService._record_generation_request
unfoldable pub count_generation : List DocumentBlock → BillingSnapshot → Tx (Unit {0})
count_generation blocks s = do
  m ← increment_generation s.usage_meter
  if ltb 0 (signature_block_count blocks)
      then (do
        increment_premium_feature signature_feature (signature_block_count blocks) m
        pure tt)
      else pure tt

-- BillingService._sync_template_count
unfoldable pub sync_templates : BillingSnapshot → Tx ℕ
sync_templates s = do
  n ← gets (count_templates s.subscription.organization_id)
  set_template_count n s.usage_meter
  pure n

-- BillingService._sync_user_count
unfoldable pub sync_users : BillingSnapshot → Tx ℕ
sync_users s = do
  n ← gets (count_active_users s.subscription.organization_id)
  set_user_count n s.usage_meter
  pure n

-- BillingService._enforce_template_creation_allowed
unfoldable pub check_template_creation : BillingSnapshot → Tx (Unit {0})
unfolding sync_templates
check_template_creation s = do
  template_count ← sync_templates s
  raise_if (leb s.plan.max_templates template_count) conflict

-- BillingService._enforce_storage_delta_allowed
unfoldable pub check_storage : ℕ → BillingSnapshot → Tx (Unit {0})
check_storage additional_bytes s =
    if additional_bytes == 0
    then pure tt
    else raise_if (ltb s.plan.storage_quota_bytes (s.usage_meter.storage_bytes + additional_bytes))
        conflict

-- BillingService._record_storage_usage
unfoldable pub count_storage : ℤ → BillingSnapshot → Tx (Unit {0})
count_storage delta_bytes s = do adjust_storage_bytes delta_bytes s.usage_meter; pure tt

-- the session's methods, each on the organization's snapshot
unfoldable pub enforce_generation_allowed : Clock → ℕ → List DocumentBlock → Tx (Unit {0})
enforce_generation_allowed clock organization_id blocks =
    with_snapshot clock organization_id (check_generation blocks)

unfoldable pub record_generation_request : Clock → ℕ → List DocumentBlock → Tx (Unit {0})
record_generation_request clock organization_id blocks =
    with_snapshot clock organization_id (count_generation blocks)

unfoldable pub enforce_template_creation_allowed : Clock → ℕ → Tx (Unit {0})
enforce_template_creation_allowed clock organization_id =
    with_snapshot clock organization_id check_template_creation

unfoldable pub enforce_storage_delta_allowed : Clock → ℕ → ℕ → Tx (Unit {0})
enforce_storage_delta_allowed clock organization_id additional_bytes =
    with_snapshot clock organization_id (check_storage additional_bytes)

unfoldable pub record_storage_usage : Clock → ℕ → ℤ → Tx (Unit {0})
record_storage_usage clock organization_id delta_bytes =
    with_snapshot clock organization_id (count_storage delta_bytes)

unfoldable pub sync_template_count : Clock → ℕ → Tx ℕ
sync_template_count clock organization_id = with_snapshot clock organization_id sync_templates

unfoldable pub get_audit_retention_days : Clock → ℕ → Tx ℕ
get_audit_retention_days clock organization_id =
    with_snapshot clock organization_id (λ s. pure s.plan.audit_retention_days)

-- BillingService._refresh_snapshot_usage: the snapshot's meter is the row, with the counts written
unfoldable pub refresh_usage : BillingSnapshot → Tx BillingSnapshot
refresh_usage s = do
  templates ← gets (count_templates s.subscription.organization_id)
  m ← set_template_count templates s.usage_meter
  users ← gets (count_active_users s.subscription.organization_id)
  m' ← set_user_count users m
  pure (record s { usage_meter = m' })

unfoldable pub get_billing_snapshot : Clock → ℕ → Tx BillingSnapshot
get_billing_snapshot clock organization_id = with_snapshot clock organization_id refresh_usage
