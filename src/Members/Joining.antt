-- ===== src/Members/Joining.antt =====
-- What a successful `CreateMembershipWithRole` (user_repository.go) did.
use mathlib.Core.List.{Memᴰ}
use modular_monolith.Prelude.{
  String, ◌==◌, ◌≡◌, refl, inl, inr, true, List, [], ◌∷◌, ◌++◌, arith, eq_refl, any, any-append,
  select, find, Option-cases, sym, ◌∙◌, ap, subst, mem-select_of_mem,
}
use modular_monolith.Failure.{ok}
use modular_monolith.Tables.{Db, User, Identity, RoleRow, UserRole}
use modular_monolith.Session.{World, statement, with_tenant_query}
use modular_monolith.Session.Atomic.{statement-eq-ok, tenant_start}
use modular_monolith.Session.Inversion.{>>=-eq-ok, map_error-eq-ok, with_tenant_query-eq-ok}
use modular_monolith.Rbac.Queries.{is_assignment, new_assignment}
use modular_monolith.Members.{
  insert_user, insert_membership_sql, zitadel_user_id_of, add_assignment, add_assignments, is_role,
  insert_named_role_sql, user_exists, membership_with_role_tx, create_membership_with_role,
}

-- Roles are assigned; nothing else changes.
module _ (organization_id user_id : String) where
  pub add_assignments-db :
      (rows : List RoleRow) (w : World)
      → (assignments : List UserRole) × ((add_assignments organization_id user_id rows w).db
          ≡ record (w.db) { user_roles = assignments })
  unfolding add_assignments
  add_assignments-db [] w = (w.db.user_roles, refl)
  add_assignments-db (r ∷ rows) w =
      let (assignments, e) =
        add_assignments-db rows (add_assignment organization_id user_id r.id w) in
      (assignments, e ∙ ground arith)

  add_assignments-has :
      (role_id : String) (rows : List RoleRow) (w : World)
      → any (is_assignment organization_id user_id role_id) w.db.user_roles ≡ true
      → any
          (is_assignment organization_id user_id role_id)
          (add_assignments organization_id user_id rows w).db.user_roles
        ≡ true
  unfolding add_assignments
  add_assignments-has role_id [] w h = h
  add_assignments-has role_id (r ∷ rows) w h =
      add_assignments-has role_id rows (add_assignment organization_id user_id r.id w) (
        ground (
          arith,
          h,
          any-append (is_assignment organization_id user_id role_id) w.db.user_roles
              (new_assignment w organization_id user_id r.id ∷ []),
        ))

  add_assignments_complete :
      (r : RoleRow) (rows : List RoleRow) (w : World)
      → Memᴰ r rows
      → any
          (is_assignment organization_id user_id r.id)
          (add_assignments organization_id user_id rows w).db.user_roles
        ≡ true
  unfolding add_assignments
  add_assignments_complete r [] w m = elim m [ ]
  add_assignments_complete r (s ∷ rows) w (Memᴰ.head e) = rw e (
      add_assignments-has s.id rows (add_assignment organization_id user_id s.id w) (
        ground (
          arith,
          eq_refl organization_id,
          eq_refl user_id,
          eq_refl s.id,
          any-append (is_assignment organization_id user_id s.id) w.db.user_roles
              (new_assignment w organization_id user_id s.id ∷ []),
        )))
  add_assignments_complete r (s ∷ rows) w (Memᴰ.tail m) =
      add_assignments_complete r rows (add_assignment organization_id user_id s.id w) m

-- The database has one more user, of this organization, identity and email, who has the role.
pub record Joined (organization_id identity_id email role_name : String) (before : Db) (u : User)
    (after : Db) : Type 0 where
  pub user_organization : u.organization_id ≡ organization_id
  pub user_identity : u.identity_id ≡ identity_id
  pub user_email : u.email ≡ email
  pub assignments : List UserRole
  pub db : after ≡ record before { users = before.users ++ u ∷ []; user_roles = assignments }
  pub assigned :
      (r : RoleRow)
      → Memᴰ r before.roles
      → is_role organization_id role_name r ≡ true
      → any (is_assignment organization_id u.id r.id) assignments ≡ true

module _ (organization_id identity_id email role_name : String) where
  insert_membership-eq-ok :
      (w w' : World) (u : User)
      → insert_membership_sql organization_id identity_id email w ≡ (ok u, w')
      → (u.organization_id ≡ organization_id)
        × (u.identity_id ≡ identity_id)
        × (u.email ≡ email)
        × (w'.db ≡ record (w.db) { users = w.db.users ++ u ∷ [] })
  unfolding insert_membership_sql insert_user
  insert_membership-eq-ok w w' u h =
      elim (Option-cases
        (zitadel_user_id_of (find (λ (i : Identity). i.id == identity_id) w.db.identities))) [
          | inl missing ↦ absurd (ground (arith, missing, h))
          | inr (z, e) ↦ (
            ground (arith, e, h),
            ground (arith, e, h),
            ground (arith, e, h),
            ground (arith, e, h),
          )
        ]

  Joined-of_statements :
      (before after : Db) (u : User) (w : World)
      → u.organization_id ≡ organization_id
      → u.identity_id ≡ identity_id
      → u.email ≡ email
      → w.db ≡ record before { users = before.users ++ u ∷ [] }
      → after
        ≡ (add_assignments organization_id u.id
            (select (is_role organization_id role_name) w.db.roles)
            w).db
      → Joined organization_id identity_id email role_name before u after
  Joined-of_statements before after u w same_organization same_identity same_email inserted chosen =
      let rows = select (is_role organization_id role_name) w.db.roles in
      let (assignments, kept) = add_assignments-db organization_id u.id rows w in
      let same_roles : w.db.roles ≡ before.roles = ap (λ (db : Db). db.roles) inserted in
      record {
        user_organization = same_organization;
        user_identity = same_identity;
        user_email = same_email;
        assignments = assignments;
        db = chosen ∙ kept ∙ ap (λ (db : Db). record db { user_roles = assignments }) inserted;
        assigned = λ r listed named.
            sym (ap (λ (db : Db). any (is_assignment organization_id u.id r.id) db.user_roles) kept)
            ∙ add_assignments_complete organization_id u.id r rows w (
                mem-select_of_mem (is_role organization_id role_name) w.db.roles
                  (subst (Memᴰ r) (sym same_roles) listed) named);
      }

  membership_with_role_tx-eq-ok :
      (w w' : World) (u : User)
      → membership_with_role_tx organization_id identity_id email role_name w ≡ (ok u, w')
      → Joined organization_id identity_id email role_name w.db u w'.db
  unfolding membership_with_role_tx insert_named_role_sql
  membership_with_role_tx-eq-ok w w' u h =
      let insert = insert_membership_sql organization_id identity_id email in
      let (v, w1, e1, h1) = >>=-eq-ok (statement insert) _ w h in
      let assign = insert_named_role_sql organization_id v.id role_name in
      let (_, w2, e2, h2) = >>=-eq-ok (statement assign) _ w1 h1 in
      let (rs1, f1) = statement-eq-ok insert w e1 in
      let (rs2, f2) = statement-eq-ok assign w1 e2 in
      let (same_org, same_identity, same_email, users) = insert_membership-eq-ok _ w1 v f1 in
      let same : v ≡ u = ground (arith, h2) in
      let last : w'.db ≡ w2.db = ground (arith, h2) in
      let written : w2.db ≡ (assign (record w1 { replies = rs2 })).1.db = ground (arith, f2) in
      subst (λ x. Joined organization_id identity_id email role_name w.db x w'.db) same
        (Joined-of_statements w.db w'.db v (record w1 { replies = rs2 }) same_org same_identity
          same_email users (last ∙ written))

  pub create_membership_with_role-Joined :
      (w w' : World) (u : User)
      → create_membership_with_role organization_id identity_id email role_name w ≡ (ok u, w')
      → Joined organization_id identity_id email role_name w.db u w'.db
  unfolding create_membership_with_role
  create_membership_with_role-Joined w w' u h =
      let tx = membership_with_role_tx organization_id identity_id email role_name in
      let ran = map_error-eq-ok (with_tenant_query organization_id tx) w user_exists h in
      let t = with_tenant_query-eq-ok organization_id w tx ran in
      subst (Joined organization_id identity_id email role_name w.db u) (sym t.db) (
        membership_with_role_tx-eq-ok (tenant_start organization_id w t.start_replies) t.final u
          t.ran)
