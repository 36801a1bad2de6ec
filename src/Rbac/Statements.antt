-- ===== src/Rbac/Statements.antt =====
-- The SQL of internal/modules/rbac/repository.go over the tables of migrations/008_rbac_foundation.sql,
-- with their UNIQUE and FOREIGN KEY constraints, and the helpers of repository_helpers.go.
use modular_monolith.Prelude.{
  ℕ, suc, ◌-◌, String, ◌==◌, Bool, false, not, ◌&&◌, ◌||◌, List, [], ◌∷◌, ◌++◌, if◌then◌else◌,
  nat_beq, map, select, any, length, flat_map,
}
use modular_monolith.Failure.{ok}
use modular_monolith.Tables.{Permission, RoleRow, RolePermissionRow}
use modular_monolith.Session.{World, M, violation}

-- The `Role` of model.go.
pub record Role : Type 0 where
  pub id : String
  pub organization_id : String
  pub name : String
  pub permissions : List Permission
  pub created_at : ℕ
  pub updated_at : ℕ

abbrev pub contains : String → List String → Bool
contains value [] = false
contains value (s ∷ seen) = s == value || contains value seen

unfoldable pub unique_from : List String → List String → List String
unique_from seen [] = []
unique_from seen (value ∷ values) =
    let fresh = value ∷ unique_from (value ∷ seen) values in
    let rest = unique_from seen values in if contains value seen then rest else fresh

-- `uniqueStrings`: the values in order of first occurrence.
unfoldable pub unique_strings : List String → List String
unfolding unique_from
unique_strings values = unique_from [] values

-- UNIQUE (organization_id, name)
abbrev pub has_role_name : String → String → List RoleRow → Bool
has_role_name organization_id name =
    any (λ (r : RoleRow). r.organization_id == organization_id && r.name == name)

-- UNIQUE (organization_id, id), which foreign keys refer to
abbrev pub has_role_id : String → String → List RoleRow → Bool
has_role_id organization_id role_id =
    any (λ (r : RoleRow). r.organization_id == organization_id && r.id == role_id)

-- The world with one more role, under the next generated identifier.
abbrev pub new_role : World → String → String → RoleRow
new_role w organization_id name = record {
  id = w.uuid w.drawn;
  organization_id = organization_id;
  name = name;
  created_at = w.now;
  updated_at = w.now;
}

abbrev pub add_role : World → String → String → World
add_role w organization_id name = record w {
  db = record (w.db) { roles = w.db.roles ++ new_role w organization_id name ∷ [] };
  drawn = suc w.drawn;
}

-- INSERT INTO roles .. RETURNING
unfoldable pub insert_role_sql : String → String → M RoleRow
insert_role_sql organization_id name w =
    if has_role_name organization_id name w.db.roles
    then violation "23505" "roles_organization_id_name_key" w
    else (ok (new_role w organization_id name), add_role w organization_id name)

-- INSERT INTO roles .. ON CONFLICT (organization_id, name) DO NOTHING
abbrev pub add_missing_role : String → String → World → World
add_missing_role organization_id name w =
    if has_role_name organization_id name w.db.roles then w else add_role w organization_id name

unfoldable pub add_missing_roles : String → List String → World → World
add_missing_roles organization_id [] w = w
add_missing_roles organization_id (name ∷ names) w =
    add_missing_roles organization_id names (add_missing_role organization_id name w)

-- ON CONFLICT (role_id, permission_id) DO NOTHING
abbrev pub has_grant : String → String → List RolePermissionRow → Bool
has_grant role_id permission_id =
    any (λ (g : RolePermissionRow). g.role_id == role_id && g.permission_id == permission_id)

abbrev pub add_grant : List RolePermissionRow → RolePermissionRow → List RolePermissionRow
add_grant table g = if has_grant g.role_id g.permission_id table then table else table ++ g ∷ []

unfoldable pub insert_grants :
    List RolePermissionRow → List RolePermissionRow → List RolePermissionRow
insert_grants table [] = table
insert_grants table (g ∷ gs) = insert_grants (add_grant table g) gs

abbrev pub with_grants : World → List RolePermissionRow → World
with_grants w grants = record w { db = record (w.db) { role_permissions = grants } }

abbrev pub grant : String → String → Permission → RolePermissionRow
grant organization_id role_id p = record {
  organization_id = organization_id;
  role_id = role_id;
  permission_id = p.id;
}

-- INSERT INTO role_permissions SELECT $1, $2, p.id FROM permissions p WHERE p.name = ANY($3) ..
-- The result is the number of rows that were inserted.
unfoldable pub grant_named_sql : String → String → List String → M ℕ
unfolding insert_grants
grant_named_sql organization_id role_id names w =
    let chosen = select (λ (p : Permission). contains p.name names) w.db.permissions in
    let grants = insert_grants w.db.role_permissions (map (grant organization_id role_id) chosen) in
    let affected = length grants - length w.db.role_permissions in
    if has_role_id organization_id role_id w.db.roles || nat_beq affected 0
    then (ok affected, with_grants w grants)
    else violation "23503" "role_permissions_organization_id_role_id_fkey" w

-- The predicate of the join in `BootstrapDefaultRolesTx`.
unfoldable pub grants_by_default : String → String → Bool
grants_by_default role permission =
    role == "owner"
    || (role == "admin" && not (permission == "billing.write"))
    || (role == "member" && contains permission ("users.read" ∷ "settings.read" ∷ []))
    || (role == "viewer"
        && contains permission
            ("users.read" ∷ "billing.read" ∷ "audit.read" ∷ "settings.read" ∷ []))

abbrev pub default_roles : List String
default_roles = "owner" ∷ "admin" ∷ "member" ∷ "viewer" ∷ []

-- The rows that the join selects for one role.
abbrev pub default_grants : List Permission → RoleRow → List RolePermissionRow
default_grants permissions r =
    map (grant r.organization_id r.id)
      (select (λ (p : Permission). grants_by_default r.name p.name) permissions)

abbrev pub is_default_role_of : String → RoleRow → Bool
is_default_role_of organization_id r =
    r.organization_id == organization_id && contains r.name default_roles

unfoldable pub insert_default_roles_sql : String → M (Unit {0})
insert_default_roles_sql organization_id w =
    (ok tt, add_missing_roles organization_id default_roles w)

unfoldable pub insert_default_grants_sql : String → M (Unit {0})
insert_default_grants_sql organization_id w = (
  ok tt,
  with_grants w (
      insert_grants w.db.role_permissions (
        flat_map (default_grants w.db.permissions)
          (select (is_default_role_of organization_id) w.db.roles))),
)
