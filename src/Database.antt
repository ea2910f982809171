-- ===== src/Database.antt =====
-- app/core/database.py: a session's view of the tables, and `get_transaction_session`, which commits
-- at the end of the block and rolls back when it raises.
pub mod Keeps
use document_generation_anek.Prelude.{ℕ, ◌≡◌, refl, Bool, true, false, Option, none, some, List}
use document_generation_anek.Result.{Error, Result, ok, err}
use document_generation_anek.Models.{
  Organization, PlanDefinition, OrganizationPlan, OrganizationUsageMeter, BillingInvoice, Template,
  TemplateVersion, User, DocumentJob, DocumentArtifact, AuditLog, AuthSession, ApiKey,
  ApiKeyUsageLog,
}

-- `next_id` is the source of primary keys: `uuid4` never repeats a value.
pub record Db : Type 0 where
  pub next_id : ℕ
  pub organizations : List Organization
  pub plans : List PlanDefinition
  pub subscriptions : List OrganizationPlan
  pub meters : List OrganizationUsageMeter
  pub invoices : List BillingInvoice
  pub templates : List Template
  pub versions : List TemplateVersion
  pub users : List User
  pub jobs : List DocumentJob
  pub artifacts : List DocumentArtifact
  pub audit : List AuditLog
  pub sessions : List AuthSession
  pub api_keys : List ApiKey
  pub usage_logs : List ApiKeyUsageLog

-- The body of one transaction. What it wrote is lost when it raises.
abbrev pub Tx : Type 0 → Type 0
Tx A = Db → Result (A × Db)

module _ {A : Type 0} where
  abbrev pub pure : A → Tx A
  pure a db = ok (a, db)

  abbrev pub raise : Error → Tx A
  raise e db = err e

  abbrev pub lift : Result A → Tx A
  lift (ok a) db = ok (a, db)
  lift (err e) db = err e

  abbrev pub gets : (Db → A) → Tx A
  gets f db = ok (f db, db)

  abbrev pub or_raise : Option A → Error → Tx A
  or_raise none e db = err e
  or_raise (some a) e db = ok (a, db)

abbrev pub modify : (Db → Db) → Tx (Unit {0})
modify f db = ok (tt, f db)

abbrev pub raise_if : Bool → Error → Tx (Unit {0})
raise_if true e db = err e
raise_if false e db = ok (tt, db)

abbrev pub bind_result : {A B : Type 0} → Result (A × Db) → (A → Tx B) → Result (B × Db)
bind_result (ok (a, db)) f = f a db
bind_result (err e) f = err e

infixl 5 ◌>>=◌ ◌>>◌
abbrev pub ◌>>=◌ : {A B : Type 0} → Tx A → (A → Tx B) → Tx B
◌>>=◌ m f db = bind_result (m db) f

abbrev pub ◌>>◌ : {A B : Type 0} → Tx A → Tx B → Tx B
m >> k = m >>= λ _. k

-- `async with get_transaction_session() as session: body`: commit, or roll back and raise again
unfoldable pub transact : {A : Type 0} → Tx A → Db → Result A × Db
transact body db = elim (body db) [ ok (a, db') ↦ (ok a, db') | err e ↦ (err e, db) ]

-- A transaction that raises leaves the database as it was.
pub transact-err :
    {A : Type 0} (body : Tx A) (db : Db) (e : Error)
    → body db ≡ err e
    → transact body db ≡ (err e, db)
unfolding transact
transact-err body db e h = rw (h, transact)

-- the final state of a transaction that returns
pub tx-inv :
    {A B : Type 0} (m : Tx A) (f : A → Tx B) (db : Db) {b : B} {db'' : Db}
    → (m >>= f) db ≡ ok (b, db'')
    → (a : A) × (db' : Db) × (m db ≡ ok (a, db')) × (f a db' ≡ ok (b, db''))
tx-inv {A} {B} m f db {b} {db''} h = go (m db) refl h
  where
    go :
        (r : Result (A × Db))
        → m db ≡ r
        → bind_result r f ≡ ok (b, db'')
        → (a : A) × (db' : Db) × (m db ≡ ok (a, db')) × (f a db' ≡ ok (b, db''))
    go (ok (a, db')) e k = (a, db', e, k)
    go (err x) e k = absurd (cc)
