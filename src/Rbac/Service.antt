-- ===== src/Rbac/Service.antt =====
-- internal/modules/rbac/service.go: the repository's calls with an audit entry, whose error is
-- returned. Queries and the bootstrap only call the repository.
use modular_monolith.Prelude.{String, List, none, trim_space}
use modular_monolith.Tables.{UserRole}
use modular_monolith.Session.{M, pure, ◌>>=◌, ◌>>◌}
use modular_monolith.Audit.{Event, log}
use modular_monolith.Rbac.Statements.{Role, unique_strings}
use modular_monolith.Rbac.Repository.{create_role, assign_role_to_user, remove_role_from_user}

abbrev pub event : String → String → String → String → String → Event
event organization_id actor_user_id action entity_type entity_id = record {
  organization_id = organization_id;
  user_id = actor_user_id;
  action = action;
  entity_type = entity_type;
  entity_id = entity_id;
  metadata = none;
}

unfoldable pub create_role_logged : String → String → String → List String → M Role
create_role_logged organization_id actor_user_id name permission_names = do
  role ← create_role organization_id (trim_space name) (unique_strings permission_names)
  log (event organization_id actor_user_id "role_created" "role" role.id)
  pure role

unfoldable pub assign_role_logged : String → String → String → String → M UserRole
assign_role_logged organization_id actor_user_id user_id role_id = do
  a ← assign_role_to_user organization_id user_id role_id
  log (event organization_id actor_user_id "role_assigned" "user_role" a.id)
  pure a

unfoldable pub remove_role_logged : String → String → String → String → M UserRole
remove_role_logged organization_id actor_user_id user_id role_id = do
  a ← remove_role_from_user organization_id user_id role_id
  log (event organization_id actor_user_id "role_removed" "user_role" a.id)
  pure a
