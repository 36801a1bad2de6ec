-- ===== src/Audit/Effect.antt =====
-- Writing an audit entry touches the audit log only.
use modular_monolith.Prelude.{List}
use modular_monolith.Tables.{Db, AuditLog}
use modular_monolith.Session.Transactions.{KeepsDb}
use modular_monolith.Session.Keeps.{Keeps-statement}
use modular_monolith.Audit.{Event, insert_audit_log_sql, log, ignore_error}

-- A property that does not look at the audit log.
abbrev pub IgnoresAudit : (Db → Type 0) → Type 0
IgnoresAudit P = (db : Db) (logs : List AuditLog) → P db → P (record db { audit_logs = logs })

module _ (P : Db → Type 0) (ignores : IgnoresAudit P) (event : Event) where
  pub log-KeepsDb : KeepsDb P (log event)
  unfolding log insert_audit_log_sql
  log-KeepsDb =
      Keeps-statement (insert_audit_log_sql event) (record { at = λ w h. ignores w.db _ h })

  pub ignored_log-KeepsDb : KeepsDb P (ignore_error (log event))
  ignored_log-KeepsDb = record { at = log-KeepsDb.at }
