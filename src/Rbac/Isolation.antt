-- ===== src/Rbac/Isolation.antt =====
-- Tenant isolation of the rbac repository: a call for one organization leaves the rows of every
-- other organization as they are.
use modular_monolith.Prelude.{
  String, ◌==◌, ◌≡◌, refl, ◌≢◌, false, not, List, [], ◌∷◌, ◌++◌, select, map, flat_map, arith,
  eq_iff, ◌∙◌, Bool-cases, inl, inr, select-append, All, All-append,
}
use mathlib.Core.List.{append-nil}
use modular_monolith.Tables.{Db, Permission, RoleRow, RolePermissionRow, UserRole, User}
use modular_monolith.Session.{World}
use modular_monolith.Rbac.Statements.{
  has_role_name, new_role, add_role, insert_role_sql, add_missing_roles, has_grant, insert_grants,
  grant, grant_named_sql, default_grants, insert_default_roles_sql, insert_default_grants_sql,
  is_default_role_of, grants_by_default, contains, default_roles,
}
use modular_monolith.Rbac.Queries.{
  is_assignment, new_assignment, insert_user_role_sql, delete_user_role_sql,
}
use modular_monolith.Rbac.Calls.{Call, step}
use modular_monolith.Rbac.Kept.{StatementsKeep, step-keeps}

-- The rows of one organization.
abbrev pub roles_of : String → List RoleRow → List RoleRow
roles_of tenant = select (λ (r : RoleRow). r.organization_id == tenant)

abbrev pub grants_of : String → List RolePermissionRow → List RolePermissionRow
grants_of tenant = select (λ (g : RolePermissionRow). g.organization_id == tenant)

abbrev pub assignments_of : String → List UserRole → List UserRole
assignments_of tenant = select (λ (a : UserRole). a.organization_id == tenant)

-- What the rbac tables say about one organization, with the tables of users and permissions, which
-- no call changes.
pub record TenantView : Type 0 where
  pub roles : List RoleRow
  pub grants : List RolePermissionRow
  pub assignments : List UserRole
  pub users : List User
  pub permissions : List Permission

abbrev pub tenant_view : String → Db → TenantView
tenant_view tenant db = record {
  roles = roles_of tenant db.roles;
  grants = grants_of tenant db.role_permissions;
  assignments = assignments_of tenant db.user_roles;
  users = db.users;
  permissions = db.permissions;
}

module _ (organization_id tenant : String) (other : organization_id ≢ tenant) where
  different : (organization_id == tenant) ≡ false
  different = ground (arith, eq_iff organization_id tenant, other)

  roles_of-append :
      (rows : List RoleRow) (r : RoleRow)
      → r.organization_id ≡ organization_id
      → roles_of tenant (rows ++ r ∷ []) ≡ roles_of tenant rows
  roles_of-append rows r e =
      select-append (λ (r : RoleRow). r.organization_id == tenant) rows (r ∷ [])
      ∙ rw (e, different) (append-nil _)

  add_missing_roles-view :
      (names : List String) (w : World)
      → tenant_view tenant (add_missing_roles organization_id names w).db ≡ tenant_view tenant w.db
  unfolding add_missing_roles
  add_missing_roles-view [] w = refl
  add_missing_roles-view (name ∷ names) w =
      elim (Bool-cases (has_role_name organization_id name w.db.roles)) [
        | inl old ↦ rw (old, add_missing_roles) (add_missing_roles-view names w)
        | inr new ↦
            rw (new, add_missing_roles)
              (add_missing_roles-view names (add_role w organization_id name)
                ∙ ground (arith, roles_of-append w.db.roles (new_role w organization_id name) refl))
      ]

  insert_grants-view :
      (gs table : List RolePermissionRow)
      → All (λ (g : RolePermissionRow). g.organization_id ≡ organization_id) gs
      → grants_of tenant (insert_grants table gs) ≡ grants_of tenant table
  unfolding insert_grants
  insert_grants-view [] table h = refl
  insert_grants-view (g ∷ gs) table (e, h) =
      elim (Bool-cases (has_grant g.role_id g.permission_id table)) [
        | inl old ↦ rw old (insert_grants-view gs table h)
        | inr new ↦ rw new (
            insert_grants-view gs (table ++ g ∷ []) h
            ∙ select-append (λ (g : RolePermissionRow). g.organization_id == tenant) table (g ∷ [])
            ∙ rw (e, different) (append-nil _))
      ]

  default_grants-owned :
      (permissions : List Permission) (r : RoleRow)
      → r.organization_id ≡ organization_id
      → All
          (λ (g : RolePermissionRow). g.organization_id ≡ organization_id)
          (default_grants permissions r)
  default_grants-owned permissions r e =
      All_of_map (select (λ (p : Permission). grants_by_default r.name p.name) permissions)
    where
      All_of_map :
          (ps : List Permission)
          → All
              (λ (g : RolePermissionRow). g.organization_id ≡ organization_id)
              (map (grant r.organization_id r.id) ps)
      All_of_map [] = tt
      All_of_map (p ∷ ps) = (e, All_of_map ps)

  All-default_grants-owned :
      (permissions : List Permission) (rows : List RoleRow)
      → All
          (λ (g : RolePermissionRow). g.organization_id ≡ organization_id)
          (flat_map (default_grants permissions) (select (is_default_role_of organization_id) rows))
  All-default_grants-owned permissions [] = tt
  All-default_grants-owned permissions (r ∷ rows) =
      elim (Bool-cases (is_default_role_of organization_id r)) [
        | inr skipped ↦ rw skipped (All-default_grants-owned permissions rows)
        | inl chosen ↦ rw chosen (
            All-append (λ (g : RolePermissionRow). g.organization_id ≡ organization_id)
              (default_grants permissions r) _
              (default_grants-owned permissions r
                (ground (arith, chosen, eq_iff r.organization_id organization_id)))
              (All-default_grants-owned permissions rows))
      ]

  named_grants-owned :
      (role_id : String) (ps : List Permission)
      → All
          (λ (g : RolePermissionRow). g.organization_id ≡ organization_id)
          (map (grant organization_id role_id) ps)
  named_grants-owned role_id [] = tt
  named_grants-owned role_id (p ∷ ps) = (refl, named_grants-owned role_id ps)

  select-delete :
      (user_id role_id : String) (rows : List UserRole)
      → assignments_of tenant
          (select (λ (a : UserRole). not (is_assignment organization_id user_id role_id a)) rows)
        ≡ assignments_of tenant rows
  select-delete user_id role_id [] = refl
  select-delete user_id role_id (a ∷ rows) = ground (
    arith,
    select-delete user_id role_id rows,
    eq_iff a.organization_id organization_id,
    eq_iff a.organization_id tenant,
    other,
  )

  insert_user_role-view :
      (user_id role_id : String) (w : World)
      → tenant_view tenant (insert_user_role_sql organization_id user_id role_id w).1.db
        ≡ tenant_view tenant w.db
  unfolding insert_user_role_sql
  insert_user_role-view user_id role_id w = ground (
    arith,
    select-append (λ (a : UserRole). a.organization_id == tenant) w.db.user_roles
        (new_assignment w organization_id user_id role_id ∷ []),
    different,
    append-nil (assignments_of tenant w.db.user_roles),
  )

  grant_named-view :
      (role_id : String) (names : List String) (w : World)
      → tenant_view tenant (grant_named_sql organization_id role_id names w).1.db
        ≡ tenant_view tenant w.db
  unfolding grant_named_sql
  grant_named-view role_id names w =
      let chosen = select (λ (p : Permission). contains p.name names) w.db.permissions in
      ground (
        arith,
        insert_grants-view (map (grant organization_id role_id) chosen) w.db.role_permissions
            (named_grants-owned role_id chosen),
      )

  insert_role-view :
      (name : String) (w : World)
      → tenant_view tenant (insert_role_sql organization_id name w).1.db ≡ tenant_view tenant w.db
  unfolding insert_role_sql
  insert_role-view name w =
      ground (arith, roles_of-append w.db.roles (new_role w organization_id name) refl)

  StatementsKeep-view :
      (v : TenantView) → StatementsKeep (λ db. tenant_view tenant db ≡ v) organization_id
  unfolding insert_default_roles_sql insert_default_grants_sql delete_user_role_sql
  StatementsKeep-view v = record {
    insert_role = λ name. record { at = λ w h. insert_role-view name w ∙ h };
    grant_named = λ role_id names. record { at = λ w h. grant_named-view role_id names w ∙ h };
    default_roles = record { at = λ w h. add_missing_roles-view default_roles w ∙ h };
    default_grants = record {
      at = λ w h. ground (
        arith,
        h,
        insert_grants-view
            (flat_map (default_grants w.db.permissions)
              (select (is_default_role_of organization_id) w.db.roles))
            w.db.role_permissions (All-default_grants-owned w.db.permissions w.db.roles),
      );
    };
    insert_user_role =
        λ user_id role_id. record { at = λ w h. insert_user_role-view user_id role_id w ∙ h };
    delete_user_role = λ user_id role_id. record {
      at = λ w h. ground (arith, h, select-delete user_id role_id w.db.user_roles);
    };
  }

  -- A call for one organization, whether it succeeds or fails, leaves the roles, the grants and the
  -- role assignments of every other organization as they were, and the users and permissions.
  pub step-isolated :
      (call : Call) (w : World)
      → tenant_view tenant (step organization_id call w).db ≡ tenant_view tenant w.db
  step-isolated call w =
      step-keeps (λ db. tenant_view tenant db ≡ tenant_view tenant w.db) organization_id
        (StatementsKeep-view (tenant_view tenant w.db)) call w refl
