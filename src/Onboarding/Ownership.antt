-- ===== src/Onboarding/Ownership.antt =====
-- Who holds the role owner in an organization with the default roles has every permission.
use mathlib.Core.List.{Memᴰ}
use modular_monolith.Prelude.{
  String, ◌==◌, ◌≡◌, refl, true, ◌&&◌, [], ◌∷◌, arith, eq_iff, any, mem_of_any, sym, ◌∙◌, ap, subst,
  mem-append_right,
}
use modular_monolith.Tables.{Db, User, RoleRow, RolePermissionRow, UserRole, Permission}
use modular_monolith.Rbac.Statements.{has_grant}
use modular_monolith.Rbac.Kinds.{as_owner}
use modular_monolith.Rbac.Queries.{is_assignment}
use modular_monolith.Rbac.Access.{HasPermission}
use modular_monolith.Rbac.Defaults.{HasDefaults}
use modular_monolith.Members.{is_role}
use modular_monolith.Members.Joining.{Joined}

-- Each grant is of the organization of its role: the keys of role_permissions and roles together.
abbrev pub GrantsFollowRoles : Db → Type 0
GrantsFollowRoles db =
    (r : RoleRow) (g : RolePermissionRow)
    → Memᴰ r db.roles
    → Memᴰ g db.role_permissions
    → g.role_id ≡ r.id
    → g.organization_id ≡ r.organization_id

module _ (organization_id identity_id email : String) (earlier before after : Db) (u : User)
    (joined : Joined organization_id identity_id email "owner" before u after) where
  assignment_of :
      (r : RoleRow)
      → Memᴰ r before.roles
      → is_role organization_id "owner" r ≡ true
      → (a : UserRole) × Memᴰ a after.user_roles
        × (is_assignment organization_id u.id r.id a ≡ true)
  assignment_of r listed is =
      mem_of_any (is_assignment organization_id u.id r.id) after.user_roles (
        ap (λ (db : Db). any (is_assignment organization_id u.id r.id) db.user_roles) joined.db
        ∙ joined.assigned r listed is)

  grant_of :
      HasDefaults organization_id earlier before
      → (r : RoleRow) (p : Permission) → Memᴰ r before.roles
      → is_role organization_id "owner" r ≡ true
      → Memᴰ p earlier.permissions
      → (g : RolePermissionRow) × Memᴰ g after.role_permissions
        × (g.role_id ≡ r.id)
        × (g.permission_id ≡ p.id)
  grant_of defaults r p listed is known =
      let owned : r.name ≡ "owner" = ground (arith, is, eq_iff r.name "owner") in
      let granted =
        defaults.grants r p listed (ground (arith, is, eq_iff r.organization_id organization_id))
          (Memᴰ.head owned) known (as_owner owned) in
      let (g, m, e) =
        mem_of_any (λ (g : RolePermissionRow). g.role_id == r.id && g.permission_id == p.id)
          after.role_permissions
          (ap (λ (db : Db). has_grant r.id p.id db.role_permissions) joined.db ∙ granted) in
      (
        g,
        m,
        ground (arith, e, eq_iff g.role_id r.id),
        ground (arith, e, eq_iff g.permission_id p.id),
      )

  -- A new owner of an organization with the default roles has each permission that there is.
  pub owner-HasPermission :
      HasDefaults organization_id earlier before
      → GrantsFollowRoles after
      → earlier.permissions ≡ before.permissions
      → (p : Permission) → Memᴰ p earlier.permissions
      → HasPermission after organization_id u.id p.name
  owner-HasPermission defaults follow same p known =
      let (r, listed, is) =
        mem_of_any (is_role organization_id "owner") before.roles
          (defaults.roles "owner" (Memᴰ.head refl)) in
      let (a, assigned, ia) = assignment_of r listed is in
      let (g, granted, same_role, same_permission) = grant_of defaults r p listed is known in
      let here : Memᴰ r after.roles = subst (λ (db : Db). Memᴰ r db.roles) (sym joined.db) listed in
      let same_organization : r.organization_id ≡ organization_id =
        ground (arith, is, eq_iff r.organization_id organization_id) in
      record {
        user = u;
        assignment = a;
        grant = g;
        permission = p;
        user_listed =
            subst (λ (db : Db). Memᴰ u db.users) (sym joined.db)
              (mem-append_right before.users (u ∷ []) (Memᴰ.head refl));
        assignment_listed = assigned;
        grant_listed = granted;
        permission_listed =
            subst (λ (db : Db). Memᴰ p db.permissions) (sym joined.db) (subst (Memᴰ p) same known);
        user_id = refl;
        user_organization = joined.user_organization;
        assigned_user = ground (arith, ia, eq_iff a.user_id u.id);
        assigned_in = ground (arith, ia, eq_iff a.organization_id organization_id);
        granted_role = same_role ∙ ground (arith, ia, eq_iff a.role_id r.id);
        granted_in = follow r g here granted same_role ∙ same_organization;
        granted = sym same_permission;
        permission_name = refl;
      }
