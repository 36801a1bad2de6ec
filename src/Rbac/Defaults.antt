-- ===== src/Rbac/Defaults.antt =====
-- What `BootstrapDefaultRoles` establishes: the four default roles, each with its permissions.
use mathlib.Core.List.{Memᴰ}
use modular_monolith.Prelude.{
  String, ◌≡◌, refl, inl, inr, ◌⊎◌, ap₂, select, mem-map_cases, mem-flat_map_cases,
  test_of_mem-select, mem_of_mem-select, true, List, [], ◌∷◌, arith, eq_iff, flat_map, sym, ◌∙◌, ap,
  subst, mem-select_of_mem, mem-map,
}
use modular_monolith.Failure.{ok}
use modular_monolith.Tables.{Db, Permission, RoleRow, RolePermissionRow}
use modular_monolith.Session.{World, set_tenant, set_tenant_context, statement, map_error}
use modular_monolith.Session.Atomic.{statement-eq-ok, tenant_start}
use modular_monolith.Session.Inversion.{>>=-eq-ok, map_error-eq-ok, with_tenant_query-eq-ok}
use modular_monolith.Rbac.Statements.{
  has_role_name, add_missing_role, add_missing_roles, has_grant, grant, contains, default_grants,
  default_roles, grants_by_default, is_default_role_of, insert_default_roles_sql,
  insert_default_grants_sql,
}
use modular_monolith.Rbac.Kinds.{IsDefault, default_roles_iff, Allows, grants_by_default_iff}
use modular_monolith.Rbac.Repository.{
  map_constraint_error, bootstrap_default_roles_tx, bootstrap_default_roles,
}
use modular_monolith.Rbac.Inserts.{
  has_grant_of_mem, mem-flat_map, add_missing_roles_complete, add_missing_roles_cases,
  insert_grants_cases,
}

-- A grant of a default role of the organization.
pub record DefaultGrant (organization_id : String) (permissions : List Permission)
    (roles : List RoleRow) (g : RolePermissionRow) : Type 0 where
  pub role : RoleRow
  pub permission : Permission
  pub role_listed : Memᴰ role roles
  pub permission_listed : Memᴰ permission permissions
  pub role_organization : role.organization_id ≡ organization_id
  pub allowed : Allows role.name permission.name
  pub granted_in : g.organization_id ≡ organization_id
  pub granted_role : g.role_id ≡ role.id
  pub granted : g.permission_id ≡ permission.id

abbrev pub with_roles : Db → List RoleRow → List RolePermissionRow → Db
with_roles db roles grants = record db { roles = roles; role_permissions = grants }

-- The default roles of an organization and their permissions, no more and no less.
pub record HasDefaults (organization_id : String) (before after : Db) : Type 0 where
  -- the four roles exist
  pub roles :
      (name : String) → IsDefault name → has_role_name organization_id name after.roles ≡ true
  -- every role of the organization with one of these names has all permissions of its kind
  pub grants :
      (r : RoleRow) (p : Permission)
      → Memᴰ r after.roles
      → r.organization_id ≡ organization_id
      → IsDefault r.name
      → Memᴰ p before.permissions
      → Allows r.name p.name
      → has_grant r.id p.id after.role_permissions ≡ true
  -- nothing but these roles is new
  pub new_roles :
      (r : RoleRow)
      → Memᴰ r after.roles
      → Memᴰ r before.roles ⊎ ((r.organization_id ≡ organization_id) × IsDefault r.name)
  -- and nothing but these permissions of theirs
  pub new_grants :
      (g : RolePermissionRow)
      → Memᴰ g after.role_permissions
      → Memᴰ g before.role_permissions
        ⊎ DefaultGrant organization_id before.permissions after.roles g

module _ (organization_id : String) where
  insert_default_grants_complete :
      (w : World) (r : RoleRow) (p : Permission)
      → Memᴰ r w.db.roles
      → r.organization_id ≡ organization_id
      → contains r.name default_roles ≡ true
      → Memᴰ p w.db.permissions
      → grants_by_default r.name p.name ≡ true
      → has_grant r.id p.id (insert_default_grants_sql organization_id w).1.db.role_permissions
        ≡ true
  unfolding insert_default_grants_sql
  insert_default_grants_complete w r p listed same default known granted =
      has_grant_of_mem w.db.role_permissions _ (grant r.organization_id r.id p) (
        mem-flat_map (default_grants w.db.permissions) _ r
          (mem-select_of_mem (is_default_role_of organization_id) w.db.roles listed
            (ground (arith, default, same, eq_iff r.organization_id organization_id)))
          (mem-map (grant r.organization_id r.id) _ (
            mem-select_of_mem (λ (q : Permission). grants_by_default r.name q.name) w.db.permissions
              known granted)))

  insert_default_grants_cases :
      (w : World) (g : RolePermissionRow)
      → Memᴰ g (insert_default_grants_sql organization_id w).1.db.role_permissions
      → Memᴰ g w.db.role_permissions ⊎ DefaultGrant organization_id w.db.permissions w.db.roles g
  unfolding insert_default_grants_sql
  insert_default_grants_cases w g m =
      let chosen = select (is_default_role_of organization_id) w.db.roles in
      elim (insert_grants_cases w.db.role_permissions
        (flat_map (default_grants w.db.permissions) chosen) g m) [
          | inl old ↦ inl old
          | inr new ↦
              let (r, listed, k) =
                mem-flat_map_cases (default_grants w.db.permissions) chosen new in
              let test = λ (p : Permission). grants_by_default r.name p.name in
              let (p, known, e) =
                mem-map_cases (grant r.organization_id r.id) (select test w.db.permissions) k in
              let is = test_of_mem-select (is_default_role_of organization_id) w.db.roles listed in
              let here : r.organization_id ≡ organization_id =
                ground (arith, is, eq_iff r.organization_id organization_id) in
              inr (record {
                role = r;
                permission = p;
                role_listed =
                    mem_of_mem-select (is_default_role_of organization_id) w.db.roles listed;
                permission_listed = mem_of_mem-select test w.db.permissions known;
                role_organization = here;
                allowed =
                    (grants_by_default_iff r.name p.name).0
                      (test_of_mem-select test w.db.permissions known);
                granted_in = ap (λ (x : RolePermissionRow). x.organization_id) e ∙ here;
                granted_role = ap (λ (x : RolePermissionRow). x.role_id) e;
                granted = ap (λ (x : RolePermissionRow). x.permission_id) e;
              })
        ]

  -- Nothing but the roles changes.
  add_missing_roles-db :
      (names : List String) (w : World)
      → (roles : List RoleRow) × ((add_missing_roles organization_id names w).db
          ≡ record (w.db) { roles = roles })
  unfolding add_missing_roles
  add_missing_roles-db [] w = (w.db.roles, refl)
  add_missing_roles-db (n ∷ names) w =
      let (roles, e) = add_missing_roles-db names (add_missing_role organization_id n w) in
      (roles, e ∙ ground arith)

  -- The worlds in which the two statements of a successful run were executed.
  pub record BootstrapRun (start final : World) : Type 0 where
    pub first : World
    pub second : World
    pub first_db : first.db ≡ start.db
    pub second_db : second.db ≡ (add_missing_roles organization_id default_roles first).db
    pub final_db : final.db ≡ (insert_default_grants_sql organization_id second).1.db

  bootstrap_default_roles_tx-eq-ok :
      (start final : World)
      → bootstrap_default_roles_tx organization_id start ≡ (ok tt, final)
      → BootstrapRun start final
  unfolding bootstrap_default_roles_tx set_tenant_context insert_default_roles_sql
  bootstrap_default_roles_tx-eq-ok start final h =
      let roles_sql = insert_default_roles_sql organization_id in
      let grants_sql = insert_default_grants_sql organization_id in
      let (_, w1, e1, h1) = >>=-eq-ok (set_tenant_context organization_id) _ start h in
      let (_, w2, e2, h2) =
        >>=-eq-ok (map_error map_constraint_error (statement roles_sql)) _ w1 h1 in
      let (rs1, f1) = statement-eq-ok (set_tenant organization_id) start e1 in
      let (rs2, f2) =
        statement-eq-ok roles_sql w1
          (map_error-eq-ok (statement roles_sql) w1 map_constraint_error e2) in
      let (rs3, f3) =
        statement-eq-ok grants_sql w2
          (map_error-eq-ok (statement grants_sql) w2 map_constraint_error h2) in
      record {
        first = record w1 { replies = rs2 };
        second = record w2 { replies = rs3 };
        first_db = ground (arith, f1);
        second_db = ground (arith, f2);
        final_db = ground (arith, f3);
      }

  inserted-HasDefaults :
      (start first second : World)
      → first.db ≡ start.db
      → second.db ≡ (add_missing_roles organization_id default_roles first).db
      → HasDefaults organization_id start.db (insert_default_grants_sql organization_id second).1.db
  unfolding insert_default_grants_sql
  inserted-HasDefaults start first second e1 e2 =
      let (roles, frame) = add_missing_roles-db default_roles first in
      let kept : second.db ≡ record (start.db) { roles = roles } =
        e2 ∙ frame ∙ ap (λ (db : Db). record db { roles = roles }) e1 in
      let permissions = ap (λ (db : Db). db.permissions) kept in
      record {
        roles = λ name default.
            subst (λ (db : Db). has_role_name organization_id name db.roles ≡ true) (sym e2)
              (add_missing_roles_complete organization_id default_roles name first
                ((default_roles_iff name).0 default));
        grants = λ r p listed same default known allowed.
            insert_default_grants_complete second r p listed same
              ((default_roles_iff r.name).0 default) (subst (Memᴰ p) (sym permissions) known)
              ((grants_by_default_iff r.name p.name).1 allowed);
        new_roles = λ r listed.
            elim (add_missing_roles_cases organization_id default_roles first r
              (subst (λ (db : Db). Memᴰ r db.roles) e2 listed)) [
                | inl old ↦ inl (subst (λ (db : Db). Memᴰ r db.roles) e1 old)
                | inr new ↦ inr new
              ];
        new_grants = λ g listed. elim (insert_default_grants_cases second g listed) [
          | inl old ↦ inl (subst (λ (db : Db). Memᴰ g db.role_permissions) kept old)
          | inr new ↦ inr (
              subst (λ (l : List Permission). DefaultGrant organization_id l second.db.roles g)
                permissions new)
        ];
      }

  -- What a run of the transaction's body did: the default roles and grants, and nothing else.
  pub bootstrap_default_roles_tx-HasDefaults :
      (start final : World)
      → bootstrap_default_roles_tx organization_id start ≡ (ok tt, final)
      → HasDefaults organization_id start.db final.db
        × (final.db ≡ with_roles start.db final.db.roles final.db.role_permissions)
  unfolding insert_default_grants_sql
  bootstrap_default_roles_tx-HasDefaults start final h =
      let b = bootstrap_default_roles_tx-eq-ok start final h in
      let (roles, frame) = add_missing_roles-db default_roles b.first in
      let kept : b.second.db ≡ record (start.db) { roles = roles } =
        b.second_db ∙ frame ∙ ap (λ (db : Db). record db { roles = roles }) b.first_db in
      let written : final.db ≡ with_roles start.db roles final.db.role_permissions =
        b.final_db
        ∙ ap₂ (λ (db : Db) grants. record db { role_permissions = grants }) kept
            (sym (ap (λ (db : Db). db.role_permissions) b.final_db)) in
      (
        subst (HasDefaults organization_id start.db) (sym b.final_db)
            (inserted-HasDefaults start b.first b.second b.first_db b.second_db),
        written
            ∙ ap (λ l. with_roles start.db l final.db.role_permissions)
                (sym (ap (λ (db : Db). db.roles) written)),
      )

  -- After a successful call the organization has the roles owner, admin, member and viewer; every
  -- role of the organization with one of these names has, of the permissions that exist, all that
  -- its kind grants: the owner all, the admin all but billing.write, the member users.read and
  -- settings.read, the viewer the four that read; and no other role and no other grant is new.
  pub bootstrap_default_roles-HasDefaults :
      (w w' : World)
      → bootstrap_default_roles organization_id w ≡ (ok tt, w')
      → HasDefaults organization_id w.db w'.db
  unfolding bootstrap_default_roles
  bootstrap_default_roles-HasDefaults w w' h =
      let t =
        with_tenant_query-eq-ok organization_id w (bootstrap_default_roles_tx organization_id) h in
      let (defaults, _) =
        bootstrap_default_roles_tx-HasDefaults (tenant_start organization_id w t.start_replies)
          t.final t.ran in
      subst (HasDefaults organization_id w.db) (sym t.db) defaults

-- A database with the same permissions, roles and grants can stand for the one before.
module _ {organization_id : String} {after : Db} where
  pub HasDefaults-same_rbac :
      (before before' : Db)
      → before.permissions ≡ before'.permissions
      → before.roles ≡ before'.roles
      → before.role_permissions ≡ before'.role_permissions
      → HasDefaults organization_id before after
      → HasDefaults organization_id before' after
  HasDefaults-same_rbac before before' permissions roles grants h = record {
    roles = h.roles;
    grants = λ r p listed same default known allowed.
        h.grants r p listed same default (subst (Memᴰ p) (sym permissions) known) allowed;
    new_roles = λ r listed. elim (h.new_roles r listed) [
      | inl old ↦ inl (subst (Memᴰ r) roles old)
      | inr new ↦ inr new
    ];
    new_grants = λ g listed. elim (h.new_grants g listed) [
      | inl old ↦ inl (subst (Memᴰ g) grants old)
      | inr new ↦ inr (subst (λ l. DefaultGrant organization_id l after.roles g) permissions new)
    ];
  }
