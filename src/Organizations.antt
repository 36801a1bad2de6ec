-- ===== src/Organizations.antt =====
-- internal/repository/organization_repository.go and internal/service/organization_service.go.
pub mod Registration
pub mod Handler
pub mod Dashboard
use modular_monolith.Prelude.{
  suc, String, ◌==◌, Bool, false, [], ◌∷◌, ◌++◌, some, if◌then◌else◌, any,
}
use modular_monolith.Failure.{
  Error, ok, sentinel, no_rows, message, wrap, pg_error, organization_already_exists, pgconn_v1,
  pgx_v5,
}
use modular_monolith.Tables.{Organization}
use modular_monolith.Session.{
  World, M, pure, map_error, ◌>>=◌, ◌>>◌, statement, violation, set_tenant_context,
  with_transaction,
}
use modular_monolith.Audit.{log, ignore_error}
use modular_monolith.Rbac.Repository.{bootstrap_default_roles_tx}

abbrev pub new_organization : World → String → String → Organization
new_organization w zitadel_org_id name = record {
  id = w.uuid w.drawn;
  zitadel_org_id = zitadel_org_id;
  organization_id = zitadel_org_id;
  name = name;
  created_at = w.now;
}

-- INSERT INTO organizations .. VALUES ($1, $1, $2) RETURNING
unfoldable pub insert_organization_sql : String → String → M Organization
insert_organization_sql zitadel_org_id name w =
    let o = new_organization w zitadel_org_id name in
    if any (λ (p : Organization). p.zitadel_org_id == zitadel_org_id) w.db.organizations
    then violation "23505" "organizations_zitadel_org_id_key" w
    else (
      ok o,
      record w {
        db = record (w.db) { organizations = w.db.organizations ++ o ∷ [] };
        drawn = suc w.drawn;
      },
    )

-- `errors.As(err, &pgErr) && pgErr.Code == ..`, for the type of the package `jackc/pgx/v5/pgconn`
unfoldable pub is_unique_violation : Error → Bool
is_unique_violation (pg_error pgx_v5 code _) = code == "23505"
is_unique_violation (pg_error pgconn_v1 _ _) = false
is_unique_violation (wrap _ e) = is_unique_violation e
is_unique_violation (sentinel _) = false
is_unique_violation no_rows = false
is_unique_violation (message _) = false

abbrev pub organization_exists : Error → Error
organization_exists e = if is_unique_violation e then sentinel organization_already_exists else e

-- `CreateOrganizationTx`, and `CreateOrganization` on the pool
unfoldable pub create_organization : String → String → M Organization
create_organization zitadel_org_id name =
    map_error organization_exists (statement (insert_organization_sql zitadel_org_id name))

-- What `RegisterOrganization` runs in its transaction.
unfoldable pub register_organization_tx : String → String → M Organization
register_organization_tx zitadel_org_id name = do
  set_tenant_context zitadel_org_id
  o ← create_organization zitadel_org_id name
  bootstrap_default_roles_tx o.organization_id
  pure o

abbrev pub log_organization : Organization → M (Unit {0})
log_organization o = ignore_error (
    log (record {
      organization_id = o.organization_id;
      user_id = "";
      action = "organization_created";
      entity_type = "organization";
      entity_id = o.organization_id;
      metadata = some (("name", o.name) ∷ ("zitadel_org_id", o.zitadel_org_id) ∷ []);
    }))

unfoldable pub register_organization : String → String → M Organization
register_organization zitadel_org_id name = do
  o ← with_transaction (register_organization_tx zitadel_org_id name)
  log_organization o
  pure o
