-- ===== src/Rbac/Decisions.antt =====
-- No call of one tenant changes an access decision of another.
use mathlib.Core.List.{Memᴰ}
use modular_monolith.Prelude.{
  String, ◌==◌, ◌≡◌, ◌≢◌, ◌↔◌, List, [], ◌∷◌, All, sym, ap, subst, eq_iff, mem-select_of_mem,
  mem_of_mem-select, refl, ◌∙◌,
}
use modular_monolith.Tables.{Db, RolePermissionRow, UserRole}
use modular_monolith.Session.{World}
use modular_monolith.Rbac.Access.{HasPermission}
use modular_monolith.Rbac.Calls.{Call, step, run}
use modular_monolith.Rbac.Isolation.{TenantView, tenant_view, step-isolated}

module _ (tenant membership_id name : String) where
  -- A decision for a tenant reads that tenant's view only.
  HasPermission_of_view :
      (db db' : Db)
      → tenant_view tenant db ≡ tenant_view tenant db'
      → HasPermission db tenant membership_id name
      → HasPermission db' tenant membership_id name
  HasPermission_of_view db db' e h = record {
    user = h.user;
    assignment = h.assignment;
    grant = h.grant;
    permission = h.permission;
    user_listed = subst (Memᴰ h.user) (ap (λ (v : TenantView). v.users) e) h.user_listed;
    assignment_listed =
        mem_of_mem-select (λ (a : UserRole). a.organization_id == tenant) db'.user_roles
          (subst (Memᴰ h.assignment) (ap (λ (v : TenantView). v.assignments) e) (
            mem-select_of_mem (λ (a : UserRole). a.organization_id == tenant) db.user_roles
              h.assignment_listed ((eq_iff _ _).1 h.assigned_in)));
    grant_listed =
        mem_of_mem-select (λ (g : RolePermissionRow). g.organization_id == tenant)
          db'.role_permissions
          (subst (Memᴰ h.grant) (ap (λ (v : TenantView). v.grants) e) (
            mem-select_of_mem (λ (g : RolePermissionRow). g.organization_id == tenant)
              db.role_permissions h.grant_listed ((eq_iff _ _).1 h.granted_in)));
    permission_listed =
        subst (Memᴰ h.permission) (ap (λ (v : TenantView). v.permissions) e) h.permission_listed;
    user_id = h.user_id;
    user_organization = h.user_organization;
    assigned_user = h.assigned_user;
    assigned_in = h.assigned_in;
    granted_role = h.granted_role;
    granted_in = h.granted_in;
    granted = h.granted;
    permission_name = h.permission_name;
  }

  -- The calls of a history that are not for the tenant.
  abbrev pub AreForeign : List (String × Call) → Type 0
  AreForeign = All (λ (c : String × Call). c.0 ≢ tenant)

  run-isolated :
      (calls : List (String × Call)) (w : World)
      → AreForeign calls
      → tenant_view tenant (run calls w).db ≡ tenant_view tenant w.db
  unfolding run
  run-isolated [] w h = refl
  run-isolated ((organization_id, call) ∷ calls) w (other, h) =
      run-isolated calls (step organization_id call w) h
      ∙ step-isolated organization_id tenant other call w

  -- Whatever other organizations do with their roles, in any number of calls that succeed or fail,
  -- a membership of the tenant has the same permissions before and after.
  pub run-HasPermission :
      (calls : List (String × Call)) (w : World)
      → AreForeign calls
      → HasPermission (run calls w).db tenant membership_id name
        ↔ HasPermission w.db tenant membership_id name
  run-HasPermission calls w h = (
    HasPermission_of_view (run calls w).db w.db (run-isolated calls w h),
    HasPermission_of_view w.db (run calls w).db (sym (run-isolated calls w h)),
  )
