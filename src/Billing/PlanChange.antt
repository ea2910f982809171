-- ===== src/Billing/PlanChange.antt =====
-- A scheduled plan change takes effect at the next renewal and not before; a roll is idempotent.
use mathlib.Core.Path.{subst₂}
use document_generation_anek.Prelude.{
  ℕ, zero, suc, ◌<◌, ◌≡◌, refl, sym, ap, ◌∙◌, ◌⊎◌, inl, inr, Option, none, some, arith, or_else,
  find-update, update, ==-self, ◌==◌,
}
use document_generation_anek.Calendar.{Date, IsDate}
use document_generation_anek.Models.{OrganizationPlan, PlanDefinition}
use document_generation_anek.Result.{ok}
use document_generation_anek.Database.{Db}
use document_generation_anek.Billing.Store.{set_pending_plan}
use document_generation_anek.Billing.Renewal.{Clock, roll_forward}
use document_generation_anek.Billing.Rolling.{
  Ready, renewed, renewed_times, plan_in, roll_forward-Rolled,
}

plan-renewed_times :
    (n : ℕ) (s : OrganizationPlan)
    → ((renewed_times (suc n) s).plan_definition_id
        ≡ or_else s.pending_plan_definition_id s.plan_definition_id)
      × ((renewed_times (suc n) s).pending_plan_definition_id ≡ none)
plan-renewed_times zero s = (refl, refl)
plan-renewed_times (suc n) s = plan-renewed_times n (renewed s)

-- the tables after the pending plan is written
pending-Ready :
    (target : PlanDefinition) (s t : OrganizationPlan) (db d : Db)
    → Ready s db
    → plan_in db target.id ≡ some target
    → set_pending_plan target.id s db ≡ ok (t, d)
    → (t ≡ record s { pending_plan_definition_id = some target.id }) × Ready t d
unfolding set_pending_plan
pending-Ready target s t db d r p e =
    let f = λ (x : OrganizationPlan). record x { pending_plan_definition_id = some target.id } in
    let q : f s ≡ t = cc in
    let q' : record db { subscriptions = update (λ x. x.id == s.id) f db.subscriptions } ≡ d = cc in
    let at =
      find-update (λ x. x.organization_id == s.organization_id) (λ x. x.id == s.id) f
        db.subscriptions s (λ x. refl) r.found
      ∙ rw (==-self s.id) refl in
    (
      sym q,
      subst₂ Ready q q' (record {
        found = at;
        plan = r.plan;
        planned = r.planned;
        next_plan = target;
        next_planned = p;
        valid = r.valid;
        single = r.single;
      }),
    )

-- After a plan change is scheduled, a roll to any date either renews nothing, and the old plan is in
-- force with the change pending, or renews at least once, and the target plan is in force with nothing
-- pending.
pub plan_change_at_renewal :
    (clock : Clock) (as_of : Option Date) (target : PlanDefinition) (s t : OrganizationPlan)
    (db d : Db)
    → IsDate (or_else as_of clock.today)
    → Ready s db
    → plan_in db target.id ≡ some target
    → set_pending_plan target.id s db ≡ ok (t, d)
    → (u : OrganizationPlan) × (n : ℕ) × (db' : Db) × (roll_forward clock as_of t d
        ≡ ok ((u, n), db'))
      × (((n ≡ 0)
            × (u.plan_definition_id ≡ s.plan_definition_id)
            × (u.pending_plan_definition_id ≡ some target.id))
          ⊎ ((0 < n) × (u.plan_definition_id ≡ target.id) × (u.pending_plan_definition_id ≡ none)))
plan_change_at_renewal clock as_of target s t db d date r p e =
    let (q, r') = pending-Ready target s t db d r p e in
    let (n, db', run, w) = roll_forward-Rolled clock as_of t d date r' in
    (renewed_times n t, n, db', run, outcome n q)
  where
    outcome :
        (k : ℕ)
        → t ≡ record s { pending_plan_definition_id = some target.id }
        → ((k ≡ 0)
            × ((renewed_times k t).plan_definition_id ≡ s.plan_definition_id)
            × ((renewed_times k t).pending_plan_definition_id ≡ some target.id))
          ⊎ ((0 < k)
              × ((renewed_times k t).plan_definition_id ≡ target.id)
              × ((renewed_times k t).pending_plan_definition_id ≡ none))
    outcome zero q = inl (
      refl,
      ap (λ (x : OrganizationPlan). x.plan_definition_id) q,
      ap (λ (x : OrganizationPlan). x.pending_plan_definition_id) q,
    )
    outcome (suc k) q =
        let (a, b) = plan-renewed_times k t in
        inr (
          omega arith,
          a
              ∙ ap
                  (λ (x : OrganizationPlan).
                    or_else x.pending_plan_definition_id x.plan_definition_id)
                  q,
          b,
        )

-- A second roll to the same date does nothing.
pub roll_forward-again :
    (clock : Clock) (as_of : Option Date) (s : OrganizationPlan) (db : Db)
    → IsDate (or_else as_of clock.today)
    → Ready s db
    → (t : OrganizationPlan) × (n : ℕ) × (db' : Db) × (roll_forward clock as_of s db
        ≡ ok ((t, n), db'))
      × (roll_forward clock as_of t db' ≡ ok ((t, 0), db'))
roll_forward-again clock as_of s db date r =
    let (n, db', e, w) = roll_forward-Rolled clock as_of s db date r in
    (renewed_times n s, n, db', e, unfold roll_forward in rw w.ahead refl)
