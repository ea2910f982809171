-- ===== src/Audit.antt =====
-- app/services/audit_service.py: the log of an organization's actions. The payload of an event, and the request
-- identifiers that are put into it, are not modelled.
use document_generation_anek.Prelude.{ℕ, Option, [], ◌∷◌, ◌++◌}
use document_generation_anek.Models.{AuditAction}
use document_generation_anek.Database.{Tx, modify}

unfoldable pub log_event : ℕ → Option ℕ → AuditAction → Option ℕ → Tx (Unit {0})
log_event organization_id user_id action entity_id = modify λ db. record db {
  audit =
      db.audit
      ++ record {
        organization_id = organization_id;
        user_id = user_id;
        action = action;
        entity_id = entity_id;
      }
        ∷ [];
}
