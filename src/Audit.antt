-- ===== src/Audit.antt =====
-- internal/audit and internal/repository/audit_repository.go: the audit log. Its insert runs on the
-- pool, outside every tenant transaction.
pub mod Effect
pub mod Handler
use modular_monolith.Prelude.{
  ℕ, suc, String, ◌==◌, List, [], ◌∷◌, ◌++◌, Option, select, sort_by, leb, zero,
}
use modular_monolith.Failure.{ok}
use modular_monolith.Tables.{AuditLog}
use modular_monolith.Session.{World, M, statement}

-- The `Event` of event.go; a nil map is `none`.
pub record Event : Type 0 where
  pub organization_id : String
  pub user_id : String
  pub action : String
  pub entity_type : String
  pub entity_id : String
  pub metadata : Option (List (String × String))

abbrev pub new_audit_log : World → Event → AuditLog
new_audit_log w event = record {
  id = w.uuid w.drawn;
  organization_id = event.organization_id;
  user_id = event.user_id;
  action = event.action;
  entity_type = event.entity_type;
  entity_id = event.entity_id;
  metadata = event.metadata;
  created_at = w.now;
}

unfoldable pub insert_audit_log_sql : Event → M (Unit {0})
insert_audit_log_sql event w = (
  ok tt,
  record w {
    db = record (w.db) { audit_logs = w.db.audit_logs ++ new_audit_log w event ∷ [] };
    drawn = suc w.drawn;
  },
)

-- `CreateAuditLog`, which `Service.Log` calls with the fields of the event.
unfoldable pub log : Event → M (Unit {0})
log event = statement (insert_audit_log_sql event)

-- `_ = Log(..)`: the outcome is dropped.
abbrev pub ignore_error : M (Unit {0}) → M (Unit {0})
ignore_error m w = (ok tt, (m w).1)

abbrev drop_rows : ℕ → List AuditLog → List AuditLog
drop_rows zero rows = rows
drop_rows (suc n) [] = []
drop_rows (suc n) (r ∷ rows) = drop_rows n rows

abbrev take_rows : ℕ → List AuditLog → List AuditLog
take_rows zero rows = []
take_rows (suc n) [] = []
take_rows (suc n) (r ∷ rows) = r ∷ take_rows n rows

-- SELECT .. WHERE organization_id = $1 ORDER BY created_at DESC LIMIT $2 OFFSET $3
unfoldable pub list_audit_logs_sql : String → ℕ → ℕ → M (List AuditLog)
list_audit_logs_sql organization_id limit offset w = (
  ok (
      take_rows limit (
        drop_rows offset (
          sort_by (λ (a b : AuditLog). leb b.created_at a.created_at)
            (select (λ (a : AuditLog). a.organization_id == organization_id) w.db.audit_logs)))),
  w,
)

-- `Service.List`
unfoldable pub list : String → ℕ → ℕ → M (List AuditLog)
list organization_id limit offset = statement (list_audit_logs_sql organization_id limit offset)
