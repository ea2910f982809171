-- ===== src/Billing/Footprint.antt =====
-- The billing calls that other services make write to the subscriptions, the usage meters and the invoices alone.
use document_generation_anek.Prelude.{
  ℕ, zero, suc, ◌+◌, refl, true, false, Bool-cases, inl, inr, Option, none, some, [], ltb, ◌==◌,
  or_else,
}
use document_generation_anek.Prelude.Int.{ℤ}
use document_generation_anek.Calendar.{Date, date_le, next_period_end, month_index}
use document_generation_anek.Result.{conflict, not_found, fault}
use document_generation_anek.Models.{OrganizationPlan, OrganizationUsageMeter, BillingInvoice}
use document_generation_anek.Database.{Db, Tx, pure, or_raise, ◌>>=◌}
use document_generation_anek.Database.Keeps.{Kept, Keeps, >>=-Keeps, or_raise-Keeps, raise_if-Keeps}
use document_generation_anek.Billing.Store.{
  organization_by_id, plan_by_code, plan_by_id, subscription_of, create_subscription, update_period,
  meter_by_period, create_meter, adjust_storage_bytes, invoice_by_period, create_invoice,
}
use document_generation_anek.Billing.Renewal.{
  Clock, summary_or_current, resolve_usage_summary, invoice_row, issue_unless_found, issue_invoice,
  renew_once, renew_while, roll_forward,
}
use document_generation_anek.Billing.Snapshot.{
  BillingSnapshot, default_subscription, ensure_subscription, ensure_meter, ensure_snapshot,
  with_snapshot,
}
use document_generation_anek.Billing.Limits.{
  check_storage, count_storage, enforce_storage_delta_allowed, record_storage_usage,
}

-- the tables beside the billing ones
abbrev pub beside : Db → Db
beside db = record db { next_id = 0; subscriptions = []; meters = []; invoices = [] }

abbrev pub IsMetering : {A : Type 0} → Tx A → Type 0
IsMetering m = Keeps beside m

module _ (clock : Clock) where
  summary-IsMetering : (s : OrganizationPlan) → IsMetering (resolve_usage_summary s)
  unfolding resolve_usage_summary meter_by_period summary_or_current
  summary-IsMetering s =
      >>=-Keeps beside (meter_by_period s.organization_id s.current_period_start)
        (summary_or_current s) (λ db. refl) found
    where
      found : (m : Option OrganizationUsageMeter) → IsMetering (summary_or_current s m)
      found none db = refl
      found (some m) db = refl

  issue_unless_found-IsMetering :
      (s : OrganizationPlan) (found : Option BillingInvoice)
      → IsMetering (issue_unless_found clock s found)
  unfolding issue_unless_found plan_by_id create_invoice
  issue_unless_found-IsMetering s (some i) db = refl
  issue_unless_found-IsMetering s none db =
      >>=-Keeps beside {B = BillingInvoice} (resolve_usage_summary s) _ (summary-IsMetering s)
        (λ usage.
          >>=-Keeps beside {B = BillingInvoice} (plan_by_id s.plan_definition_id) _ (λ db. refl)
            λ found.
              >>=-Keeps beside {B = BillingInvoice} (or_raise found fault)
                (λ plan. create_invoice (invoice_row clock s plan usage))
                (or_raise-Keeps beside found fault) λ plan db. refl)
        db

  issue_invoice-IsMetering : (s : OrganizationPlan) → IsMetering (issue_invoice clock s)
  unfolding issue_invoice invoice_by_period
  issue_invoice-IsMetering s =
      >>=-Keeps beside
        (invoice_by_period s.organization_id s.current_period_start s.current_period_end)
        (issue_unless_found clock s) (λ db. refl) (issue_unless_found-IsMetering s)

  renew_once-IsMetering : (s : OrganizationPlan) → IsMetering (renew_once clock s)
  unfolding renew_once update_period subscription_of
  renew_once-IsMetering s =
      >>=-Keeps beside {B = OrganizationPlan} (issue_invoice clock s) _ (issue_invoice-IsMetering s)
        λ _.
          >>=-Keeps beside {B = OrganizationPlan}
            (update_period s.current_period_end (next_period_end s.current_period_end)
              (some (or_else s.pending_plan_definition_id s.plan_definition_id)) none s)
            _ (λ db. refl)
            λ u.
              >>=-Keeps beside {B = OrganizationPlan} (subscription_of u.organization_id) _
                (λ db. refl) λ found. or_raise-Keeps beside found not_found

  renew_while-IsMetering :
      (fuel : ℕ) (date : Date) (s : OrganizationPlan) (count : ℕ)
      → IsMetering (renew_while fuel clock date s count)
  unfolding renew_while
  renew_while-IsMetering zero date s count db = tt
  renew_while-IsMetering (suc fuel) date s count db =
      elim (date_le s.current_period_end date)
        as (λ b. Kept beside db (
          (elim b as (λ _. Tx (OrganizationPlan × ℕ)) [
            | true ↦ (renew_once clock s >>= λ t. renew_while fuel clock date t (count + 1))
            | false ↦ pure (s, count)
          ])
            db)) [
              | true ↦
                  >>=-Keeps beside (renew_once clock s)
                    (λ t. renew_while fuel clock date t (count + 1)) (renew_once-IsMetering s)
                    (λ t. renew_while-IsMetering fuel date t (count + 1)) db
              | false ↦ refl
            ]

  roll_forward-IsMetering :
      (as_of : Option Date) (s : OrganizationPlan) → IsMetering (roll_forward clock as_of s)
  unfolding roll_forward
  roll_forward-IsMetering as_of s db =
      elim (Bool-cases (date_le s.current_period_end (or_else as_of clock.today))) [
        | inl e ↦ rw e (
            renew_while-IsMetering (suc (suc (month_index (or_else as_of clock.today))))
              (or_else as_of clock.today) s 0 db)
        | inr e ↦ rw e refl
      ]

  module _ (organization_id : ℕ) where
    ensure_subscription-IsMetering :
        (found : Option OrganizationPlan)
        → IsMetering (ensure_subscription clock organization_id found)
    unfolding ensure_subscription plan_by_code create_subscription subscription_of
    ensure_subscription-IsMetering none =
        >>=-Keeps beside {B = OrganizationPlan} (plan_by_code "starter") _ (λ db. refl)
          λ default.
            >>=-Keeps beside {B = OrganizationPlan} (or_raise default not_found) _
              (or_raise-Keeps beside default not_found)
              λ plan.
                >>=-Keeps beside {B = OrganizationPlan}
                  (create_subscription (default_subscription clock organization_id plan.id)) _
                  (λ db. refl)
                  λ _.
                    >>=-Keeps beside {B = OrganizationPlan} (subscription_of organization_id) _
                      (λ db. refl) λ s. or_raise-Keeps beside s not_found
    ensure_subscription-IsMetering (some s) =
        >>=-Keeps beside {B = OrganizationPlan} (roll_forward clock none s) _
          (roll_forward-IsMetering none s) λ r db. refl

    ensure_meter-IsMetering :
        (s : OrganizationPlan) (found : Option OrganizationUsageMeter)
        → IsMetering (ensure_meter organization_id s found)
    unfolding ensure_meter create_meter
    ensure_meter-IsMetering s (some m) db = refl
    ensure_meter-IsMetering s none db = refl

    ensure_snapshot-IsMetering : IsMetering (ensure_snapshot clock organization_id)
    unfolding ensure_snapshot organization_by_id subscription_of meter_by_period plan_by_id
    ensure_snapshot-IsMetering =
        >>=-Keeps beside {B = BillingSnapshot} (organization_by_id organization_id) _ (λ db. refl)
          λ o.
            >>=-Keeps beside {B = BillingSnapshot} (or_raise o not_found) _
              (or_raise-Keeps beside o not_found)
              λ _.
                >>=-Keeps beside {B = BillingSnapshot} (subscription_of organization_id) _
                  (λ db. refl)
                  λ current.
                    >>=-Keeps beside {B = BillingSnapshot}
                      (ensure_subscription clock organization_id current) _
                      (ensure_subscription-IsMetering current)
                      λ s.
                        >>=-Keeps beside {B = BillingSnapshot}
                          (meter_by_period organization_id s.current_period_start) _ (λ db. refl)
                          λ found.
                            >>=-Keeps beside {B = BillingSnapshot}
                              (ensure_meter organization_id s found) _
                              (ensure_meter-IsMetering s found)
                              λ m.
                                >>=-Keeps beside {B = BillingSnapshot}
                                  (plan_by_id s.plan_definition_id) _ (λ db. refl)
                                  λ p.
                                    >>=-Keeps beside {B = BillingSnapshot} (or_raise p fault)
                                      (λ plan.
                                        pure (record {
                                          plan = plan;
                                          subscription = s;
                                          usage_meter = m;
                                        }))
                                      (or_raise-Keeps beside p fault) λ plan db. refl

    with_snapshot-IsMetering :
        {A : Type 0} (action : BillingSnapshot → Tx A)
        → ((s : BillingSnapshot) → IsMetering (action s))
        → IsMetering (with_snapshot clock organization_id action)
    unfolding with_snapshot
    with_snapshot-IsMetering action h =
        >>=-Keeps beside (ensure_snapshot clock organization_id) action ensure_snapshot-IsMetering h

    pub enforce_storage-IsMetering :
        (n : ℕ) → IsMetering (enforce_storage_delta_allowed clock organization_id n)
    unfolding enforce_storage_delta_allowed check_storage
    enforce_storage-IsMetering n = with_snapshot-IsMetering (check_storage n) checked
      where
        checked : (s : BillingSnapshot) → IsMetering (check_storage n s)
        checked s db = elim (Bool-cases (n == 0)) [
          | inl e ↦ rw e refl
          | inr e ↦ rw e (
              raise_if-Keeps beside
                (ltb s.plan.storage_quota_bytes (s.usage_meter.storage_bytes + n)) conflict db)
        ]

    pub record_storage-IsMetering :
        (n : ℤ) → IsMetering (record_storage_usage clock organization_id n)
    unfolding record_storage_usage count_storage adjust_storage_bytes
    record_storage-IsMetering n = with_snapshot-IsMetering (count_storage n) (λ s db. refl)
