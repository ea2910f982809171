-- ===== src/Billing/Rolling.antt =====
-- `_roll_subscription_forward_if_needed`: the loop ends, and where it leaves the subscription.
use mathlib.Core.List.{append-nil, append_assoc}
use document_generation_anek.Prelude.{
  ◌⊎◌, ℕ, zero, suc, ◌+◌, ◌≤◌, ◌<◌, ◌≡◌, refl, sym, ap, ◌∙◌, inl, inr, Bool, true, false, Option,
  none, some, List, [], ◌∷◌, ◌++◌, arith, All, is_some, or_else, find, find-update,
  find-append_some, update, ==-self, ◌==◌, Bool-cases, Option-cases,
}
use document_generation_anek.Calendar.{
  Date, IsDate, date_le, next_period_end, next_period_end-IsDate, month_index,
  month_index-next_period_end, month_index-of_le,
}
use document_generation_anek.Models.{OrganizationPlan, PlanDefinition, BillingInvoice}
use document_generation_anek.Result.{ok}
use document_generation_anek.Database.{Db}
use document_generation_anek.Billing.Store.{is_invoice, renewed_row, update_period, subscription_of}
use document_generation_anek.Billing.Renewal.{Clock, renew_once, renew_while, roll_forward}
use document_generation_anek.Billing.Invoices.{
  invoice_in, IsSingle, issue_invoice-Issued, issue_invoice-IsSingle,
}

abbrev pub subscription_in : Db → ℕ → Option OrganizationPlan
subscription_in db o = find (λ s. s.organization_id == o) db.subscriptions

abbrev pub plan_in : Db → ℕ → Option PlanDefinition
plan_in db id = find (λ p. p.id == id) db.plans

-- What the tables must hold for a renewal: the subscription is the organization's, the foreign keys of
-- its plan and its pending plan are met, its dates are dates, and no period has two invoices.
pub record Ready (s : OrganizationPlan) (db : Db) : Type 0 where
  pub found : subscription_in db s.organization_id ≡ some s
  pub plan : PlanDefinition
  pub planned : plan_in db s.plan_definition_id ≡ some plan
  pub next_plan : PlanDefinition
  pub next_planned :
      plan_in db (or_else s.pending_plan_definition_id s.plan_definition_id) ≡ some next_plan
  pub valid : IsDate s.current_period_end
  pub single : IsSingle db

-- the subscription after one renewal
abbrev pub renewed : OrganizationPlan → OrganizationPlan
renewed s = record s {
  plan_definition_id = or_else s.pending_plan_definition_id s.plan_definition_id;
  pending_plan_definition_id = none;
  current_period_start = s.current_period_end;
  current_period_end = next_period_end s.current_period_end;
}

-- the subscription after `n` renewals
abbrev pub renewed_times : ℕ → OrganizationPlan → OrganizationPlan
renewed_times zero s = s
renewed_times (suc n) s = renewed_times n (renewed s)

-- the periods that `n` renewals end
abbrev pub periods : ℕ → OrganizationPlan → List (Date × Date)
periods zero s = []
periods (suc n) s = (s.current_period_start, s.current_period_end) ∷ periods n (renewed s)

abbrev pub HasInvoice : Db → ℕ → Date × Date → Type 0
HasInvoice db o (a, b) = is_some (invoice_in db o a b) ≡ true

-- the invoices that are written for a list of periods: in order, one for each period, or none where it has one already
pub data Bills (o : ℕ) : List (Date × Date) → List BillingInvoice → Type 0 where
  billed : Bills o [] []
  bill :
      (p : Date × Date) (i : BillingInvoice) (ps : List (Date × Date))
      (invoices : List BillingInvoice)
      → is_invoice o p.0 p.1 i ≡ true
      → Bills o ps invoices
      → Bills o (p ∷ ps) (i ∷ invoices)
  pass_over :
      (p : Date × Date) (ps : List (Date × Date)) (invoices : List BillingInvoice)
      → Bills o ps invoices
      → Bills o (p ∷ ps) invoices

-- at most one invoice, of one period
abbrev pub IsOne : ℕ → Date × Date → List BillingInvoice → Type 0
IsOne o p added =
    (added ≡ []) ⊎ ((i : BillingInvoice) × (added ≡ i ∷ []) × (is_invoice o p.0 p.1 i ≡ true))

Bills-more :
    (o : ℕ) (p : Date × Date) (ps : List (Date × Date)) (more added : List BillingInvoice)
    → IsOne o p more
    → Bills o ps added
    → Bills o (p ∷ ps) (more ++ added)
Bills-more o p ps more added (inl q) b = rw q (pass_over p ps added b)
Bills-more o p ps more added (inr (i, q, h)) b = rw q (bill p i ps added h b)

is_some-append :
    (p : BillingInvoice → Bool) (xs ys : List BillingInvoice)
    → is_some (find p xs) ≡ true
    → is_some (find p (xs ++ ys)) ≡ true
is_some-append p xs ys h = elim (Option-cases (find p xs)) [
  | inl n ↦ absurd (cc)
  | inr (a, e) ↦ rw (find-append_some p xs ys a e) refl
]

module _ (clock : Clock) (s : OrganizationPlan) (db : Db) (r : Ready s db) where
  pub renew_once-Ready :
      (db' : Db) × (renew_once clock s db ≡ ok (renewed s, db'))
      × Ready (renewed s) db'
      × HasInvoice db' s.organization_id (s.current_period_start, s.current_period_end)
      × (added : List BillingInvoice) × (db'.invoices ≡ db.invoices ++ added)
      × IsOne s.organization_id (s.current_period_start, s.current_period_end) added
  unfolding renew_once update_period subscription_of renewed_row
  renew_once-Ready =
      let (i, d, e, w) = issue_invoice-Issued clock s r.plan db r.planned in
      let f =
        renewed_row s.current_period_end (next_period_end s.current_period_end)
          (some (or_else s.pending_plan_definition_id s.plan_definition_id)) none in
      let d' : Db = record d { subscriptions = update (λ x. x.id == s.id) f d.subscriptions } in
      let at : subscription_in d' s.organization_id ≡ some (renewed s) =
        find-update (λ x. x.organization_id == s.organization_id) (λ x. x.id == s.id) f
          d.subscriptions s (λ x. refl) (rw w.same_subscriptions r.found)
        ∙ rw (==-self s.id) refl in
      (
        d',
        rw e (rw at refl),
        record {
          found = at;
          plan = r.next_plan;
          planned = rw w.same_plans r.next_planned;
          next_plan = r.next_plan;
          next_planned = rw w.same_plans r.next_planned;
          valid = next_period_end-IsDate s.current_period_end r.valid;
          single = issue_invoice-IsSingle clock s r.plan i db d r.planned e r.single;
        },
        w.recorded,
        w.added,
        w.kept,
        w.one,
      )

-- What a roll to `date` has done to the subscription `s`, with `n` invoices.
pub record Rolled (date : Date) (s : OrganizationPlan) (n : ℕ) (db db' : Db) : Type 0 where
  pub ready : Ready (renewed_times n s) db'
  pub ahead : date_le (renewed_times n s).current_period_end date ≡ false
  pub due : All (λ p. date_le p.1 date ≡ true) (periods n s)
  pub invoiced : All (HasInvoice db' s.organization_id) (periods n s)
  pub added : List BillingInvoice
  pub kept : db'.invoices ≡ db.invoices ++ added
  pub bills : Bills s.organization_id (periods n s) added

renew_while-stop :
    (fuel : ℕ) (clock : Clock) (date : Date) (s : OrganizationPlan) (count : ℕ) (db : Db)
    → date_le s.current_period_end date ≡ false
    → renew_while (suc fuel) clock date s count db ≡ ok ((s, count), db)
unfolding renew_while
renew_while-stop fuel clock date s count db h = rw (h, renew_while) refl

renew_while-go :
    (fuel : ℕ) (clock : Clock) (date : Date) (s t : OrganizationPlan) (count : ℕ) (db d : Db)
    → date_le s.current_period_end date ≡ true
    → renew_once clock s db ≡ ok (t, d)
    → renew_while (suc fuel) clock date s count db ≡ renew_while fuel clock date t (count + 1) d
unfolding renew_while
renew_while-go fuel clock date s t count db d h e = rw (h, renew_while) (rw e refl)

Rolled-here :
    (date : Date) (s : OrganizationPlan) (db : Db)
    → Ready s db
    → date_le s.current_period_end date ≡ false
    → Rolled date s 0 db db
Rolled-here date s db r h = record {
  ready = r;
  ahead = h;
  due = tt;
  invoiced = tt;
  added = [];
  kept = sym (append-nil db.invoices);
  bills = billed;
}

HasInvoice-kept :
    (o : ℕ) (p : Date × Date) (db db' : Db) (added : List BillingInvoice)
    → db'.invoices ≡ db.invoices ++ added
    → HasInvoice db o p
    → HasInvoice db' o p
HasInvoice-kept o (a, b) db db' added k h =
    rw k (is_some-append (is_invoice o a b) db.invoices added h)

Rolled-more :
    (date : Date) (s : OrganizationPlan) (n : ℕ) (db d db' : Db) (more : List BillingInvoice)
    → date_le s.current_period_end date ≡ true
    → HasInvoice d s.organization_id (s.current_period_start, s.current_period_end)
    → d.invoices ≡ db.invoices ++ more
    → IsOne s.organization_id (s.current_period_start, s.current_period_end) more
    → Rolled date (renewed s) n d db'
    → Rolled date s (suc n) db db'
Rolled-more date s n db d db' more go i k one w = record {
  ready = w.ready;
  ahead = w.ahead;
  due = (go, w.due);
  invoiced = (HasInvoice-kept s.organization_id _ d db' w.added w.kept i, w.invoiced);
  added = more ++ w.added;
  bills = Bills-more s.organization_id _ (periods n (renewed s)) more w.added one w.bills;
  kept = w.kept ∙ ap (λ l. l ++ w.added) k ∙ append_assoc db.invoices more w.added;
}

-- With fuel for the months that are left and one more test, the loop returns.
pub renew_while-Rolled :
    (fuel : ℕ) (clock : Clock) (date : Date) (s : OrganizationPlan) (count : ℕ) (db : Db)
    → 0 < fuel
    → month_index date + 2 ≤ fuel + month_index s.current_period_end
    → IsDate date
    → Ready s db
    → (n : ℕ) × (db' : Db) × (renew_while fuel clock date s count db
        ≡ ok ((renewed_times n s, count + n), db'))
      × Rolled date s n db db'
renew_while-Rolled zero clock date s count db pos enough d r = absurd (omega arith)
renew_while-Rolled (suc fuel) clock date s count db pos enough d r =
    elim (Bool-cases (date_le s.current_period_end date)) [
      | inr stop ↦ (
        0,
        db,
        renew_while-stop fuel clock date s count db stop
            ∙ ap (λ c. ok ((s, c), db)) (let q : count ≡ count + 0 = omega arith in q),
        Rolled-here date s db r stop,
      )
      | inl go ↦
          let (d1, e1, r1, i1, a1, k1, o1) = renew_once-Ready clock s db r in
          let le = month_index-of_le s.current_period_end date r.valid d go in
          let up = month_index-next_period_end s.current_period_end r.valid in
          let (n, d2, e2, w) =
            renew_while-Rolled fuel clock date (renewed s) (count + 1) d1 (omega (arith, le, up))
              (omega (arith, le, up)) d r1 in
          (
            suc n,
            d2,
            renew_while-go fuel clock date s (renewed s) count db d1 go e1
                ∙ e2
                ∙ ap (λ c. ok ((renewed_times n (renewed s), c), d2))
                    (let q : count + 1 + n ≡ count + suc n = omega arith in q),
            Rolled-more date s n db d1 d2 a1 go i1 k1 o1 w,
          )
    ]

-- Rolling a subscription forward always returns, from tables that meet the foreign keys and dates. Every period that ended
-- by the billing date has one invoice then: the new invoices are of these periods only, in order, one for each that had
-- none. Every earlier invoice is kept, no period has two, and the call leaves the subscription `n` months on, with its pending plan in
-- force after the first renewal, in a period that ends after the billing date.
pub roll_forward-Rolled :
    (clock : Clock) (as_of : Option Date) (s : OrganizationPlan) (db : Db)
    → IsDate (or_else as_of clock.today)
    → Ready s db
    → (n : ℕ) × (db' : Db) × (roll_forward clock as_of s db ≡ ok ((renewed_times n s, n), db'))
      × Rolled (or_else as_of clock.today) s n db db'
unfolding roll_forward
roll_forward-Rolled clock as_of s db d r =
    let date : Date = or_else as_of clock.today in
    elim (Bool-cases (date_le s.current_period_end date)) [
      | inr stop ↦ (0, db, rw stop refl, Rolled-here date s db r stop)
      | inl go ↦
          let (n, db', e, w) =
            renew_while-Rolled (suc (suc (month_index date))) clock date s 0 db (omega arith)
              (omega arith) d r in
          (
            n,
            db',
            rw go (
                e
                ∙ ap (λ c. ok ((renewed_times n s, c), db'))
                    (let q : 0 + n ≡ n = omega arith in q)),
            w,
          )
    ]
