-- ===== src/Rbac/Handler.antt =====
-- internal/modules/rbac/handler.go and dto.go.
pub mod Guarded
use modular_monolith.Prelude.{ℕ, String, ◌==◌, Bool, List, map, if◌then◌else◌, trim_space, true}
use modular_monolith.Failure.{
  Error, Result, ok, err, errors_is, role_already_exists, unknown_permissions, user_role_exists,
  role_not_found,
}
use modular_monolith.Tables.{Permission, UserRole}
use modular_monolith.Session.{World, M}
use modular_monolith.Access.{AuthenticatedUser, Context}
use modular_monolith.Http.{
  Outcome, Serve, done, refused, refuse_with, in_organization, as_user, with_body, answer,
}
use modular_monolith.Rbac.Statements.{Role}
use modular_monolith.Rbac.Repository.{list_permissions, list_roles, bootstrap_default_roles}
use modular_monolith.Rbac.Service.{create_role_logged, assign_role_logged}

pub record PermissionResponse : Type 0 where
  pub id : String
  pub name : String

pub record RoleResponse : Type 0 where
  pub id : String
  pub name : String
  pub permissions : List PermissionResponse

abbrev pub permission_response : Permission → PermissionResponse
permission_response p = record { id = p.id; name = p.name }

abbrev pub role_response : Role → RoleResponse
role_response r = record {
  id = r.id;
  name = r.name;
  permissions = map permission_response r.permissions;
}

pub record CreateRoleRequest : Type 0 where
  pub name : String
  pub permissions : List String

-- `requestIdentity`
abbrev pub request_identity :
    {A : Type 0}
    → Context
    → (AuthenticatedUser → String → World → Outcome A × World)
    → World
    → Outcome A × World
request_identity c run = as_user c.user (λ user. in_organization c.organization_id (run user))

-- The argument is the decoded `organization_id`.
unfoldable pub bootstrap_rbac : Result String → World → Outcome (String × Bool) × World
bootstrap_rbac body = with_body body λ raw w.
    let organization_id = trim_space raw in
    if organization_id == ""
    then refuse_with 400 "organization id is required" w
    else answer (λ (u : Unit {0}). done 200 (organization_id, true))
        (λ e. refused 500 "failed to bootstrap RBAC") (bootstrap_default_roles organization_id w)

unfoldable pub list_roles_handler : Serve (List RoleResponse)
list_roles_handler c = in_organization c.organization_id λ organization_id w.
    answer (λ (roles : List Role). done 200 (map role_response roles))
      (λ e. refused 500 "failed to list roles") (list_roles organization_id w)

abbrev pub create_role_error : Error → Outcome RoleResponse
create_role_error e =
    if errors_is e role_already_exists
    then refused 400 "role already exists"
    else if errors_is e unknown_permissions
    then refused 400 "unknown permissions"
    else refused 500 "failed to create role"

unfoldable pub create_role_handler : Result CreateRoleRequest → Serve RoleResponse
unfolding errors_is
create_role_handler body c = request_identity c λ user organization_id. with_body body λ req w.
    if trim_space req.name == ""
    then refuse_with 400 "role name is required" w
    else answer (λ (r : Role). done 201 (role_response r)) create_role_error
        (create_role_logged organization_id user.user_id req.name req.permissions w)

unfoldable pub list_permissions_handler : World → Outcome (List PermissionResponse) × World
list_permissions_handler w =
    answer (λ (ps : List Permission). done 200 (map permission_response ps))
      (λ e. refused 500 "failed to list permissions") (list_permissions w)

pub record AssignmentResponse : Type 0 where
  pub id : String
  pub user_id : String
  pub role_id : String

abbrev pub assign_role_error : Error → Outcome AssignmentResponse
assign_role_error e =
    if errors_is e user_role_exists
    then refused 400 "user role already exists"
    else if errors_is e role_not_found
    then refused 400 "role not found"
    else refused 500 "failed to assign role"

abbrev pub assignment_response : UserRole → AssignmentResponse
assignment_response a = record { id = a.id; user_id = a.user_id; role_id = a.role_id }

-- The first argument is the path's `id`, the second the decoded `role_id`.
unfoldable pub assign_role_handler : String → Result String → Serve AssignmentResponse
unfolding errors_is
assign_role_handler user_id body c = request_identity c λ user organization_id w.
    if user_id == ""
    then refuse_with 400 "user id is required" w
    else with_body body
        (λ role_id v.
          if trim_space role_id == ""
          then refuse_with 400 "role id is required" v
          else answer (λ (a : UserRole). done 201 (assignment_response a)) assign_role_error
              (assign_role_logged organization_id user.user_id user_id role_id v))
        w
