-- ===== src/Billing/Invoices.antt =====
-- `_issue_invoice_for_period`: what one call records, and that no period is invoiced twice.
use mathlib.Core.Path.{subst}
use mathlib.Core.List.{append-nil}
use document_generation_anek.Prelude.{
  ◌⊎◌, both-true, sym, ℕ, suc, ◌+◌, ◌≤◌, ◌≡◌, refl, Bool, true, false, ◌&&◌, Option, none, some,
  List, [], ◌∷◌, ◌++◌, arith, is_some, find, count_by, count_by-append, count_by-find-none,
  find-append_none, ==-self, ==→eq, ◌==◌, Option-cases, inl, inr, if◌then◌else◌,
}
use document_generation_anek.Calendar.{Date, date_eq, date_eq_self, date_eq→eq}
use document_generation_anek.Models.{
  OrganizationPlan, OrganizationUsageMeter, BillingInvoice, PlanDefinition,
}
use document_generation_anek.Result.{ok}
use document_generation_anek.Database.{Db}
use document_generation_anek.Billing.Store.{
  is_invoice, plan_by_id, meter_by_period, invoice_by_period, create_invoice,
}
use document_generation_anek.Billing.Renewal.{
  Clock, summary_or_current, resolve_usage_summary, invoice_row, issue_unless_found, issue_invoice,
}

-- the query of one period's invoice
abbrev pub invoice_in : Db → ℕ → Date → Date → Option BillingInvoice
invoice_in db o a b = find (is_invoice o a b) db.invoices

-- `uq_billing_invoices_org_period`: a period has at most one invoice
abbrev pub IsSingle : Db → Type 0
IsSingle db = (o : ℕ) (a b : Date) → count_by (is_invoice o a b) db.invoices ≤ 1

-- What a call leaves alone, and what it adds.
pub record Issued (s : OrganizationPlan) (db db' : Db) : Type 0 where
  pub same_subscriptions : db'.subscriptions ≡ db.subscriptions
  pub same_plans : db'.plans ≡ db.plans
  pub recorded :
      is_some (invoice_in db' s.organization_id s.current_period_start s.current_period_end) ≡ true
  pub added : List BillingInvoice
  pub kept : db'.invoices ≡ db.invoices ++ added
  pub one :
      (added ≡ [])
      ⊎ ((i : BillingInvoice) × (added ≡ i ∷ [])
          × (is_invoice s.organization_id s.current_period_start s.current_period_end i ≡ true))

is_invoice-invoice_row :
    (clock : Clock) (s : OrganizationPlan) (plan : PlanDefinition) (u : OrganizationUsageMeter)
    (id : ℕ)
    → is_invoice s.organization_id s.current_period_start s.current_period_end
        (invoice_row clock s plan u id)
      ≡ true
unfolding invoice_row
is_invoice-invoice_row clock s plan u id =
    rw (==-self s.organization_id)
      (rw (date_eq_self s.current_period_start) (date_eq_self s.current_period_end))

-- the usage summary reads and writes nothing
summary_reads :
    (s : OrganizationPlan) (db : Db)
    → (u : OrganizationUsageMeter) × (resolve_usage_summary s db ≡ ok (u, db))
unfolding resolve_usage_summary meter_by_period
summary_reads s db = go (find _ db.meters)
  where
    go :
        (o : Option OrganizationUsageMeter)
        → (u : OrganizationUsageMeter) × (summary_or_current s o db ≡ ok (u, db))
    go (some m) = (m, unfold summary_or_current in refl)
    go none = (_, unfold summary_or_current in refl)

-- Where the subscription's plan exists, a call returns: with the period's invoice if there is one, and
-- nothing is written; else with a new invoice at the end of the table, at the plan's price.
pub issue_invoice-cases :
    (clock : Clock) (s : OrganizationPlan) (plan : PlanDefinition) (db : Db)
    → find (λ p. p.id == s.plan_definition_id) db.plans ≡ some plan
    → ((i : BillingInvoice) × (invoice_in db s.organization_id s.current_period_start
            s.current_period_end
          ≡ some i)
        × (issue_invoice clock s db ≡ ok (i, db)))
      ⊎ ((u : OrganizationUsageMeter) × (invoice_in db s.organization_id s.current_period_start
              s.current_period_end
            ≡ none)
          × (resolve_usage_summary s db ≡ ok (u, db))
          × (issue_invoice clock s db
              ≡ ok (
                invoice_row clock s plan u db.next_id,
                record db {
                  next_id = suc db.next_id;
                  invoices = db.invoices ++ invoice_row clock s plan u db.next_id ∷ [];
                },
              )))
unfolding issue_invoice invoice_by_period issue_unless_found plan_by_id create_invoice
issue_invoice-cases clock s plan db e =
    elim (Option-cases
      (invoice_in db s.organization_id s.current_period_start s.current_period_end)) [
        | inr (i, h) ↦ inl (i, h, rw (h, issue_unless_found) refl)
        | inl n ↦
            let (u, r) = summary_reads s db in
            inr (u, n, r, rw (n, issue_unless_found) (rw r (rw e refl)))
      ]

module _ (clock : Clock) (s : OrganizationPlan) (plan : PlanDefinition) (db : Db)
    (e : find (λ (p : PlanDefinition). p.id == s.plan_definition_id) db.plans ≡ some plan) where
  pub issue_invoice-Issued :
      (i : BillingInvoice) × (db' : Db) × (issue_invoice clock s db ≡ ok (i, db')) × Issued s db db'
  issue_invoice-Issued = elim (issue_invoice-cases clock s plan db e) [
    | inl (i, found, r) ↦ (
      i,
      db,
      r,
      record {
        same_subscriptions = refl;
        same_plans = refl;
        recorded = rw found refl;
        added = [];
        kept = sym (append-nil db.invoices);
        one = inl refl;
      },
    )
    | inr (u, missing, _, r) ↦ (
      _,
      _,
      r,
      record {
        same_subscriptions = refl;
        same_plans = refl;
        recorded =
            rw (find-append_none _ db.invoices (invoice_row clock s plan u db.next_id ∷ []) missing)
              (rw (is_invoice-invoice_row clock s plan u db.next_id) refl);
        added = invoice_row clock s plan u db.next_id ∷ [];
        kept = refl;
        one = inr (_, refl, is_invoice-invoice_row clock s plan u db.next_id);
      },
    )
  ]

-- the key of a matching invoice
is_invoice-parts :
    (o : ℕ) (a b : Date) (i : BillingInvoice)
    → is_invoice o a b i ≡ true
    → (i.organization_id ≡ o) × (i.period_start ≡ a) × (i.period_end ≡ b)
is_invoice-parts o a b i h =
    let (front, ends) =
      both-true (i.organization_id == o && date_eq i.period_start a) (date_eq i.period_end b) h in
    let (org, starts) = both-true (i.organization_id == o) (date_eq i.period_start a) front in
    (
      ==→eq i.organization_id o org,
      date_eq→eq i.period_start a starts,
      date_eq→eq i.period_end b ends,
    )

add_if : (b : Bool) (m n : ℕ) → m ≤ 1 → (b ≡ true → m ≡ 0) → m + ((if b then 1 else 0) + 0) ≤ 1
add_if true m n h z = let k : m ≡ 0 = z refl in omega arith
add_if false m n h z = omega arith

-- a new invoice whose period had none keeps every period's count within one
append-IsSingle :
    (o : ℕ) (a b : Date) (i : BillingInvoice) (invoices : List BillingInvoice) (p : ℕ) (c d : Date)
    → is_invoice o a b i ≡ true
    → find (is_invoice o a b) invoices ≡ none
    → count_by (is_invoice p c d) invoices ≤ 1
    → count_by (is_invoice p c d) (invoices ++ i ∷ []) ≤ 1
append-IsSingle o a b i invoices p c d h n few =
    rw (count_by-append (is_invoice p c d) invoices (i ∷ []))
      (add_if (is_invoice p c d i) (count_by (is_invoice p c d) invoices) 0 few none_before)
  where
    none_before : is_invoice p c d i ≡ true → count_by (is_invoice p c d) invoices ≡ 0
    none_before k =
        let (eo, ea, eb) = is_invoice-parts o a b i h in
        let (fo, fa, fb) = is_invoice-parts p c d i k in
        let qo : o ≡ p = cc in
        let qa : a ≡ c = cc in
        let qb : b ≡ d = cc in
        count_by-find-none (is_invoice p c d) invoices (rw (← qo) (rw (← qa) (rw (← qb) n)))

-- A call keeps every organization's period at one invoice at most.
pub issue_invoice-IsSingle :
    (clock : Clock) (s : OrganizationPlan) (plan : PlanDefinition) (i : BillingInvoice)
    (db db' : Db)
    → find (λ p. p.id == s.plan_definition_id) db.plans ≡ some plan
    → issue_invoice clock s db ≡ ok (i, db')
    → IsSingle db
    → IsSingle db'
issue_invoice-IsSingle clock s plan i db db' e r single =
    elim (issue_invoice-cases clock s plan db e) [
      | inl (j, found, q) ↦ let same : db ≡ db' = cc in subst IsSingle same single
      | inr (u, missing, _, q) ↦
          let same : record db {
            next_id = suc db.next_id;
            invoices = db.invoices ++ invoice_row clock s plan u db.next_id ∷ [];
          }
              ≡ db' =
            cc in
          subst IsSingle same λ o a b.
            append-IsSingle s.organization_id s.current_period_start s.current_period_end
              (invoice_row clock s plan u db.next_id) db.invoices o a b
              (is_invoice-invoice_row clock s plan u db.next_id) missing (single o a b)
    ]
