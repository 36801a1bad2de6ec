-- ===== src/Rbac/Repository.antt =====
-- The methods of `Repository` in internal/modules/rbac/repository.go.
use modular_monolith.Prelude.{String, ◌==◌, Bool, List, nat_beq, length, if◌then◌else◌}
use modular_monolith.Failure.{
  Error, sentinel, no_rows, message, wrap, pgconn_v1, pgx_v5, pg_error, is_no_rows,
  role_already_exists, role_not_found, user_role_not_found, user_role_exists, unknown_permissions,
}
use modular_monolith.Tables.{Permission, RoleRow, UserRole}
use modular_monolith.Session.{
  M, pure, fail, map_error, ◌>>=◌, ◌>>◌, statement, set_tenant_context, with_tenant_query,
  statement,
}
use modular_monolith.Rbac.Statements.{
  Role, unique_strings, insert_role_sql, grant_named_sql, insert_default_roles_sql,
  insert_default_grants_sql,
}
use modular_monolith.Rbac.Queries.{
  insert_user_role_sql, delete_user_role_sql, user_has_permission_sql, list_permissions_sql,
  list_roles_sql, select_role_sql,
}

-- The type assertion `err.(*pgconn.PgError)` names the type of the package `jackc/pgconn`.
unfoldable pub map_constraint_error : Error → Error
map_constraint_error (pg_error pgconn_v1 code constraint) =
    if code == "23505"
    then if constraint == "roles_organization_id_name_key"
      then sentinel role_already_exists
      else if constraint == "user_roles_organization_id_user_id_role_id_key"
      then sentinel user_role_exists
      else pg_error pgconn_v1 code constraint
    else if code == "23503"
    then sentinel role_not_found
    else pg_error pgconn_v1 code constraint
map_constraint_error (pg_error pgx_v5 code constraint) = pg_error pgx_v5 code constraint
map_constraint_error (sentinel s) = sentinel s
map_constraint_error no_rows = no_rows
map_constraint_error (message m) = message m
map_constraint_error (wrap m e) = wrap m e

-- `if errors.Is(err, pgx.ErrNoRows) { return nil, e }`
abbrev pub no_rows_to : Error → Error → Error
no_rows_to e cause = if is_no_rows cause then e else cause

unfoldable pub list_permissions : M (List Permission)
list_permissions = statement list_permissions_sql

unfoldable pub list_roles : String → M (List Role)
list_roles organization_id =
    with_tenant_query organization_id (statement (list_roles_sql organization_id))

unfoldable pub insert_role : String → String → M RoleRow
unfolding map_constraint_error insert_role_sql
insert_role organization_id name =
    map_error map_constraint_error (statement (insert_role_sql organization_id name))

unfoldable pub assign_role_permissions : String → String → List String → M (Unit {0})
assign_role_permissions organization_id role_id permission_names =
    if nat_beq (length permission_names) 0 then pure tt else do
      affected ←
          map_error map_constraint_error
            (statement (grant_named_sql organization_id role_id permission_names))
      if nat_beq affected (length (unique_strings permission_names))
          then pure tt
          else fail (sentinel unknown_permissions)

unfoldable pub get_role : String → String → M Role
get_role organization_id role_id =
    map_error (no_rows_to (sentinel role_not_found))
      (statement (select_role_sql organization_id role_id))

-- What `CreateRole` runs in its transaction.
unfoldable pub create_role_tx : String → String → List String → M Role
create_role_tx organization_id name permission_names = do
  role ← insert_role organization_id name
  assign_role_permissions organization_id role.id permission_names
  get_role organization_id role.id

unfoldable pub create_role : String → String → List String → M Role
create_role organization_id name permission_names =
    with_tenant_query organization_id (create_role_tx organization_id name permission_names)

unfoldable pub bootstrap_default_roles_tx : String → M (Unit {0})
bootstrap_default_roles_tx organization_id = do
  set_tenant_context organization_id
  map_error map_constraint_error (statement (insert_default_roles_sql organization_id))
  map_error map_constraint_error (statement (insert_default_grants_sql organization_id))

unfoldable pub bootstrap_default_roles : String → M (Unit {0})
bootstrap_default_roles organization_id =
    with_tenant_query organization_id (bootstrap_default_roles_tx organization_id)

unfoldable pub assign_role_to_user : String → String → String → M UserRole
assign_role_to_user organization_id user_id role_id = map_error map_constraint_error (
    with_tenant_query organization_id
      (statement (insert_user_role_sql organization_id user_id role_id)))

unfoldable pub remove_role_from_user : String → String → String → M UserRole
remove_role_from_user organization_id user_id role_id =
    map_error (no_rows_to (sentinel user_role_not_found)) (
      with_tenant_query organization_id
        (statement (delete_user_role_sql organization_id user_id role_id)))

unfoldable pub user_has_permission : String → String → String → M Bool
user_has_permission organization_id membership_id permission =
    with_tenant_query organization_id
      (statement (user_has_permission_sql organization_id membership_id permission))
