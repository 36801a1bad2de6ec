-- ===== src/Rbac/Queries.antt =====
-- The remaining SQL of internal/modules/rbac/repository.go: the assignments of roles to users, and
-- the queries.
use modular_monolith.Prelude.{
  suc, String, ◌==◌, Bool, ◌&&◌, List, [], ◌∷◌, ◌++◌, Option, none, some, not, if◌then◌else◌, map,
  select, find, any, sort_by, flat_map,
}
use modular_monolith.Failure.{Result, ok, err, no_rows}
use modular_monolith.Tables.{Db, Permission, RoleRow, RolePermissionRow, UserRole, User}
use modular_monolith.Session.{World, M, violation}
use modular_monolith.Rbac.Statements.{Role, has_role_id}

-- organization_id = $1 AND user_id = $2 AND role_id = $3
abbrev pub is_assignment : String → String → String → UserRole → Bool
is_assignment organization_id user_id role_id a =
    a.organization_id == organization_id && a.user_id == user_id && a.role_id == role_id

abbrev pub new_assignment : World → String → String → String → UserRole
new_assignment w organization_id user_id role_id = record {
  id = w.uuid w.drawn;
  organization_id = organization_id;
  user_id = user_id;
  role_id = role_id;
  created_at = w.now;
}

abbrev pub with_assignments : World → List UserRole → World
with_assignments w assignments = record w { db = record (w.db) { user_roles = assignments } }

-- INSERT INTO user_roles .. RETURNING. The unique index is checked as the row goes in, the foreign
-- keys at the end of the statement; the one on users does not name the organization.
unfoldable pub insert_user_role_sql : String → String → String → M UserRole
insert_user_role_sql organization_id user_id role_id w =
    let a = new_assignment w organization_id user_id role_id in
    if any (is_assignment organization_id user_id role_id) w.db.user_roles
    then violation "23505" "user_roles_organization_id_user_id_role_id_key" w
    else if not (any (λ (u : User). u.id == user_id) w.db.users)
    then violation "23503" "user_roles_user_id_fkey" w
    else if not (has_role_id organization_id role_id w.db.roles)
    then violation "23503" "user_roles_organization_id_role_id_fkey" w
    else (ok a, record (with_assignments w (w.db.user_roles ++ a ∷ [])) { drawn = suc w.drawn })

-- `QueryRow(..).Scan`: the first row, or `pgx.ErrNoRows`.
abbrev pub scan_row : {A : Type 0} → Option A → Result A
scan_row none = err no_rows
scan_row (some a) = ok a

-- DELETE FROM user_roles .. RETURNING
unfoldable pub delete_user_role_sql : String → String → String → M UserRole
delete_user_role_sql organization_id user_id role_id w = (
  scan_row (find (is_assignment organization_id user_id role_id) w.db.user_roles),
  with_assignments w (
      select (λ (a : UserRole). not (is_assignment organization_id user_id role_id a))
        w.db.user_roles),
)

-- The EXISTS query of `UserHasPermission`: each join is a search of one table, in the order of the
-- FROM clause.
abbrev pub joins_permission : Db → String → RolePermissionRow → Bool
joins_permission db name rp =
    any (λ (p : Permission). p.id == rp.permission_id && p.name == name) db.permissions

abbrev pub joins_grant : Db → String → UserRole → Bool
joins_grant db name ur =
    any
      (λ (rp : RolePermissionRow).
        rp.role_id == ur.role_id
        && rp.organization_id == ur.organization_id
        && joins_permission db name rp)
      db.role_permissions

abbrev pub joins_assignment : Db → String → User → Bool
joins_assignment db name u =
    any
      (λ (ur : UserRole).
        ur.user_id == u.id && ur.organization_id == u.organization_id && joins_grant db name ur)
      db.user_roles

unfoldable pub user_has_permission_in : Db → String → String → String → Bool
user_has_permission_in db organization_id membership_id name =
    any
      (λ (u : User).
        u.organization_id == organization_id && u.id == membership_id && joins_assignment db name u)
      db.users

unfoldable pub user_has_permission_sql : String → String → String → M Bool
unfolding user_has_permission_in
user_has_permission_sql organization_id membership_id permission w =
    (ok (user_has_permission_in w.db organization_id membership_id permission), w)

-- SELECT id, name, created_at FROM permissions ORDER BY name
unfoldable pub list_permissions_sql : M (List Permission)
list_permissions_sql w =
    (ok (sort_by (λ (p q : Permission). w.collate p.name q.name) w.db.permissions), w)

-- The LEFT JOINs and `jsonb_agg(.. ORDER BY p.name) FILTER (WHERE p.id IS NOT NULL)` for one role.
unfoldable pub permissions_of : World → RoleRow → List Permission
permissions_of w r =
    sort_by (λ (p q : Permission). w.collate p.name q.name)
      (flat_map
        (λ (rp : RolePermissionRow).
          select (λ (p : Permission). p.id == rp.permission_id) w.db.permissions)
        (select
          (λ (rp : RolePermissionRow).
            rp.role_id == r.id && rp.organization_id == r.organization_id)
          w.db.role_permissions))

-- What `Scan` and `decodePermissions` make of a row and its aggregated permissions.
abbrev pub scan_role : RoleRow → List Permission → Role
scan_role r permissions = record {
  id = r.id;
  organization_id = r.organization_id;
  name = r.name;
  permissions = permissions;
  created_at = r.created_at;
  updated_at = r.updated_at;
}

unfoldable pub list_roles_sql : String → M (List Role)
unfolding permissions_of
list_roles_sql organization_id w =
    let rows =
      sort_by (λ (r s : RoleRow). w.collate r.name s.name)
        (select (λ (r : RoleRow). r.organization_id == organization_id) w.db.roles) in
    (ok (map (λ r. scan_role r (permissions_of w r)) rows), w)

abbrev scan_role? : World → Option RoleRow → Result Role
scan_role? w none = err no_rows
scan_role? w (some r) = ok (scan_role r (permissions_of w r))

unfoldable pub select_role_sql : String → String → M Role
select_role_sql organization_id role_id w = (
  scan_role? w
      (find (λ (r : RoleRow). r.organization_id == organization_id && r.id == role_id) w.db.roles),
  w,
)
