-- ===== src/Audit/Handler.antt =====
-- internal/modules/auditmod/handler.go.
use modular_monolith.Prelude.{ℕ, String, ◌==◌, List, Option, none, some, if◌then◌else◌, map}
use modular_monolith.Prelude.Int.{ℤ, pos, negsuc}
use modular_monolith.Prelude.Numerals.{parse_int}
use modular_monolith.Tables.{AuditLog}
use modular_monolith.Http.{Serve, done, refused, in_organization, answer}
use modular_monolith.Audit.{list}

abbrev nonnegative : ℕ → Option ℤ → ℕ
nonnegative default none = default
nonnegative default (some (pos n)) = n
nonnegative default (some (negsuc n)) = default

-- `queryInt`; the first argument is the parameter's text, empty where it is missing.
unfoldable pub query_int : String → ℕ → ℕ
unfolding parse_int
query_int v default = if v == "" then default else nonnegative default (parse_int v)

-- `auditLogResponse`: the organization is not shown.
pub record AuditLogResponse : Type 0 where
  pub id : String
  pub action : String
  pub entity_type : String
  pub entity_id : String
  pub user_id : String
  pub created_at : ℕ
  pub metadata : Option (List (String × String))

abbrev audit_log_response : AuditLog → AuditLogResponse
audit_log_response l = record {
  id = l.id;
  action = l.action;
  entity_type = l.entity_type;
  entity_id = l.entity_id;
  user_id = l.user_id;
  created_at = l.created_at;
  metadata = l.metadata;
}

unfoldable pub list_audit_logs_handler : String → String → Serve (List AuditLogResponse)
unfolding query_int
list_audit_logs_handler limit offset c = in_organization c.organization_id λ organization_id w.
    answer (λ (rows : List AuditLog). done 200 (map audit_log_response rows))
      (λ e. refused 500 "failed to list audit logs")
      (list organization_id (query_int limit 50) (query_int offset 0) w)
