-- ===== src/Rbac/Access.antt =====
-- What the EXISTS query of `UserHasPermission` (repository.go) decides.
use mathlib.Core.List.{Memᴰ}
use modular_monolith.Prelude.{
  String, ◌==◌, ◌≡◌, ◌↔◌, Bool, true, ◌&&◌, arith, eq_iff, inl, inr, sym, ◌∙◌, any_of_mem,
  mem_of_any,
}
use modular_monolith.Failure.{ok}
use modular_monolith.Tables.{Db, User, UserRole, RolePermissionRow, Permission}
use modular_monolith.Session.{World, statement}
use modular_monolith.Session.Atomic.{with_tenant_query_cases, statement-eq-ok, tenant_start}
use modular_monolith.Rbac.Queries.{
  joins_permission, joins_grant, joins_assignment, user_has_permission_in, user_has_permission_sql,
}
use modular_monolith.Rbac.Repository.{user_has_permission}

-- A user of the organization holds a role of the organization that grants the permission.
pub record HasPermission (db : Db) (organization_id membership_id name : String) : Type 0 where
  pub user : User
  pub assignment : UserRole
  pub grant : RolePermissionRow
  pub permission : Permission
  pub user_listed : Memᴰ user db.users
  pub assignment_listed : Memᴰ assignment db.user_roles
  pub grant_listed : Memᴰ grant db.role_permissions
  pub permission_listed : Memᴰ permission db.permissions
  pub user_id : user.id ≡ membership_id
  pub user_organization : user.organization_id ≡ organization_id
  pub assigned_user : assignment.user_id ≡ membership_id
  pub assigned_in : assignment.organization_id ≡ organization_id
  pub granted_role : grant.role_id ≡ assignment.role_id
  pub granted_in : grant.organization_id ≡ organization_id
  pub granted : permission.id ≡ grant.permission_id
  pub permission_name : permission.name ≡ name

and_join : (a b c : Bool) → a ≡ true → b ≡ true → c ≡ true → (a && b && c) ≡ true
and_join a b c p q r = ground arith

and_join_two : (a b : Bool) → a ≡ true → b ≡ true → (a && b) ≡ true
and_join_two a b p q = ground arith

beq : {s t : String} → s ≡ t → (s == t) ≡ true
beq {s} {t} e = (eq_iff s t).1 e

module _ (db : Db) (name : String) where
  joins_permission_sound :
      (rp : RolePermissionRow)
      → joins_permission db name rp ≡ true
      → (p : Permission) × Memᴰ p db.permissions × (p.id ≡ rp.permission_id) × (p.name ≡ name)
  joins_permission_sound rp h =
      let (p, m, hp) =
        mem_of_any (λ (p : Permission). p.id == rp.permission_id && p.name == name) db.permissions
          h in
      (
        p,
        m,
        ground (arith, hp, eq_iff p.id rp.permission_id),
        ground (arith, hp, eq_iff p.name name),
      )

  joins_grant_sound :
      (ur : UserRole)
      → joins_grant db name ur ≡ true
      → (rp : RolePermissionRow) × Memᴰ rp db.role_permissions
        × (rp.role_id ≡ ur.role_id)
        × (rp.organization_id ≡ ur.organization_id)
        × (joins_permission db name rp ≡ true)
  joins_grant_sound ur h =
      let (rp, m, hrp) =
        mem_of_any
          (λ (rp : RolePermissionRow).
            rp.role_id == ur.role_id
            && rp.organization_id == ur.organization_id
            && joins_permission db name rp)
          db.role_permissions h in
      (
        rp,
        m,
        ground (arith, hrp, eq_iff rp.role_id ur.role_id),
        ground (arith, hrp, eq_iff rp.organization_id ur.organization_id),
        ground (arith, hrp),
      )

  joins_assignment_sound :
      (u : User)
      → joins_assignment db name u ≡ true
      → (ur : UserRole) × Memᴰ ur db.user_roles
        × (ur.user_id ≡ u.id)
        × (ur.organization_id ≡ u.organization_id)
        × (joins_grant db name ur ≡ true)
  joins_assignment_sound u h =
      let (ur, m, hur) =
        mem_of_any
          (λ (ur : UserRole).
            ur.user_id == u.id && ur.organization_id == u.organization_id && joins_grant db name ur)
          db.user_roles h in
      (
        ur,
        m,
        ground (arith, hur, eq_iff ur.user_id u.id),
        ground (arith, hur, eq_iff ur.organization_id u.organization_id),
        ground (arith, hur),
      )

module _ (db : Db) (organization_id membership_id name : String) where
  user_has_permission_in-sound :
      user_has_permission_in db organization_id membership_id name ≡ true
      → HasPermission db organization_id membership_id name
  unfolding user_has_permission_in
  user_has_permission_in-sound h =
      let (u, mu, hu) =
        mem_of_any
          (λ (u : User).
            u.organization_id == organization_id
            && u.id == membership_id
            && joins_assignment db name u)
          db.users h in
      let user_id : u.id ≡ membership_id = ground (arith, hu, eq_iff u.id membership_id) in
      let user_organization : u.organization_id ≡ organization_id =
        ground (arith, hu, eq_iff u.organization_id organization_id) in
      let (ur, mur, same_user, same_org, hur) =
        joins_assignment_sound db name u (ground (arith, hu)) in
      let (rp, mrp, same_role, same_org', hrp) = joins_grant_sound db name ur hur in
      let (p, mp, same_id, same_name) = joins_permission_sound db name rp hrp in
      record {
        user = u;
        assignment = ur;
        grant = rp;
        permission = p;
        user_listed = mu;
        assignment_listed = mur;
        grant_listed = mrp;
        permission_listed = mp;
        user_id = user_id;
        user_organization = user_organization;
        assigned_user = same_user ∙ user_id;
        assigned_in = same_org ∙ user_organization;
        granted_role = same_role;
        granted_in = same_org' ∙ same_org ∙ user_organization;
        granted = same_id;
        permission_name = same_name;
      }

  user_has_permission_in_complete :
      HasPermission db organization_id membership_id name
      → user_has_permission_in db organization_id membership_id name ≡ true
  unfolding user_has_permission_in
  user_has_permission_in_complete h = any_of_mem _ db.users h.user_listed (
      and_join _ _ _ (beq h.user_organization) (beq h.user_id) (
        any_of_mem _ db.user_roles h.assignment_listed (
          and_join _ _ _ (beq (h.assigned_user ∙ sym h.user_id))
            (beq (h.assigned_in ∙ sym h.user_organization))
            (any_of_mem _ db.role_permissions h.grant_listed (
              and_join _ _ _ (beq h.granted_role) (beq (h.granted_in ∙ sym h.assigned_in)) (
                any_of_mem _ db.permissions h.permission_listed
                  (and_join_two _ _ (beq h.granted) (beq h.permission_name))))))))

-- Whatever the connection replies, an answer of `UserHasPermission` is right: it is true exactly
-- when a user of the organization holds a role of the organization that grants a permission of that
-- name. The call changes nothing in the database.
pub user_has_permission_iff :
    (organization_id membership_id name : String) (w w' : World) (b : Bool)
    → user_has_permission organization_id membership_id name w ≡ (ok b, w')
    → ((b ≡ true) ↔ HasPermission w.db organization_id membership_id name) × (w'.db ≡ w.db)
unfolding user_has_permission user_has_permission_sql
user_has_permission_iff organization_id membership_id name w w' b h =
    let run = user_has_permission_sql organization_id membership_id name in
    elim (with_tenant_query_cases organization_id (statement run) w) [
      | inr r ↦ absurd (ground (arith, r.result, h))
      | inl (named, rs, c) ↦
          let (rs', ran) = statement-eq-ok run (tenant_start organization_id w rs) c.ran in
          let answer : b ≡ user_has_permission_in w.db organization_id membership_id name =
            ground (arith, ran, c.result, h) in
          (
            (
              λ e.
                  user_has_permission_in-sound w.db organization_id membership_id name
                    (sym answer ∙ e),
              λ p.
                  answer
                  ∙ user_has_permission_in_complete w.db organization_id membership_id name p,
            ),
            ground (arith, ran, c.result, h),
          )
    ]
