-- ===== src/Rbac/Creation.antt =====
-- What a successful CreateRole leaves behind (repository.go, service.go).
use mathlib.Core.List.{Memᴰ}
use modular_monolith.Prelude.{
  ℕ, String, ◌==◌, ◌≡◌, inl, inr, sym, ap, ◌∙◌, subst, true, false, ◌&&◌, List, [], ◌∷◌, ◌++◌,
  arith, eq_iff, Bool-cases, Option-cases, find, find-eq-some, mem-map, mem-map_cases,
  mem_of_mem-select, test_of_mem-select, ◌⊎◌, mem-select_of_mem, map, select, length, nat_beq,
  trim_space, ◌-◌, ◌||◌, if◌then◌else◌,
}
use modular_monolith.Failure.{ok, sentinel, role_not_found, unknown_permissions}
use modular_monolith.Tables.{Db, Permission, RoleRow, RolePermissionRow}
use modular_monolith.Session.{World, statement, map_error, pure, fail}
use modular_monolith.Session.Atomic.{statement-eq-ok, tenant_start}
use modular_monolith.Session.Inversion.{>>=-eq-ok, map_error-eq-ok, with_tenant_query-eq-ok}
use modular_monolith.Rbac.Statements.{
  Role, contains, has_role_name, new_role, add_role, insert_role_sql, has_grant, insert_grants,
  grant, grant_named_sql, unique_strings, with_grants, has_role_id,
}
use modular_monolith.Rbac.Queries.{select_role_sql}
use modular_monolith.Rbac.Repository.{
  map_constraint_error, no_rows_to, insert_role, assign_role_permissions, get_role, create_role_tx,
  create_role,
}
use modular_monolith.Audit.{log, insert_audit_log_sql}
use modular_monolith.Rbac.Service.{event, create_role_logged}
use modular_monolith.Rbac.Inserts.{has_grant_of_mem, insert_grants_cases}

-- A grant of the role for a permission of a requested name.
pub record NamedGrant (organization_id role_id : String) (names : List String)
    (permissions : List Permission) (g : RolePermissionRow) : Type 0 where
  pub permission : Permission
  pub listed : Memᴰ permission permissions
  pub requested : contains permission.name names ≡ true
  pub granted_in : g.organization_id ≡ organization_id
  pub granted_role : g.role_id ≡ role_id
  pub granted : g.permission_id ≡ permission.id

-- The role is the only new one, of the organization and under this name; it has a grant for every
-- permission of the requested names, and no other grant is new.
pub record IsCreated (organization_id name : String) (names : List String) (before after : Db)
    (role_id : String) : Type 0 where
  pub was_free : has_role_name organization_id name before.roles ≡ false
  pub row : RoleRow
  pub roles : after.roles ≡ before.roles ++ row ∷ []
  pub row_id : row.id ≡ role_id
  pub row_organization : row.organization_id ≡ organization_id
  pub row_name : row.name ≡ name
  pub grants :
      (p : Permission)
      → Memᴰ p before.permissions
      → contains p.name names ≡ true
      → has_grant role_id p.id after.role_permissions ≡ true
  pub new_grants :
      (g : RolePermissionRow)
      → Memᴰ g after.role_permissions
      → Memᴰ g before.role_permissions
        ⊎ NamedGrant organization_id role_id names before.permissions g

module _ (organization_id : String) where
  -- The new row.
  insert_role-eq-ok :
      (name : String) (w w' : World) (row : RoleRow)
      → insert_role organization_id name w ≡ (ok row, w')
      → (has_role_name organization_id name w.db.roles ≡ false)
        × (row ≡ new_role w organization_id name)
        × (w'.db ≡ (add_role w organization_id name).db)
  unfolding insert_role insert_role_sql
  insert_role-eq-ok name w w' row h =
      let (rs, ran) = statement-eq-ok (insert_role_sql organization_id name) w (
        map_error-eq-ok (statement (insert_role_sql organization_id name)) w map_constraint_error
          h) in
      (ground (arith, ran), ground (arith, ran), ground (arith, ran))

  -- The rows of the INSERT into role_permissions.
  abbrev granted_rows : String → List String → World → List RolePermissionRow
  granted_rows role_id names w = insert_grants w.db.role_permissions (
      map (grant organization_id role_id)
        (select (λ (p : Permission). contains p.name names) w.db.permissions))

  grant_named_sql-eq-ok :
      (role_id : String) (names : List String) (w w' : World) (n : ℕ)
      → grant_named_sql organization_id role_id names w ≡ (ok n, w')
      → w'.db ≡ (with_grants w (granted_rows role_id names w)).db
  unfolding grant_named_sql
  grant_named_sql-eq-ok role_id names w w' n h =
      let grants = granted_rows role_id names w in
      elim (Bool-cases (
        has_role_id organization_id role_id w.db.roles
        || nat_beq (length grants - length w.db.role_permissions) 0)) [
          | inl fits ↦ ground (arith, fits, h)
          | inr dangling ↦ absurd (ground (arith, dangling, h))
        ]

  -- The grants that are left: none are asked for, or those of the names.
  assign_role_permissions-eq-ok :
      (role_id : String) (n : String) (names : List String) (w w' : World)
      → assign_role_permissions organization_id role_id (n ∷ names) w ≡ (ok tt, w')
      → w'.db ≡ (with_grants w (granted_rows role_id (n ∷ names) w)).db
  unfolding assign_role_permissions
  assign_role_permissions-eq-ok role_id n names w w' h =
      let sql = grant_named_sql organization_id role_id (n ∷ names) in
      let (k, v, e, h1) =
        >>=-eq-ok (map_error map_constraint_error (statement sql))
          (λ affected.
            if nat_beq affected (length (unique_strings (n ∷ names)))
            then pure tt
            else fail (sentinel unknown_permissions))
          w {b = tt} {w'' = w'} (ground (arith, h)) in
      let (rs, ran) =
        statement-eq-ok sql w {a = k} {w' = v}
          (map_error-eq-ok (statement sql) w map_constraint_error {a = k} {w' = v} e) in
      let done = grant_named_sql-eq-ok role_id (n ∷ names) (record w { replies = rs }) v k ran in
      elim (Bool-cases (nat_beq k (length (unique_strings (n ∷ names))))) [
        | inl all ↦ ground (arith, all, h1, done)
        | inr short ↦ absurd (ground (arith, short, h1))
      ]

  assign_role_permissions-grants :
      (role_id : String) (names : List String) (w w' : World) (p : Permission)
      → assign_role_permissions organization_id role_id names w ≡ (ok tt, w')
      → Memᴰ p w.db.permissions
      → contains p.name names ≡ true
      → has_grant role_id p.id w'.db.role_permissions ≡ true
  assign_role_permissions-grants role_id [] w w' p h known named = absurd (ground (arith, named))
  assign_role_permissions-grants role_id (n ∷ names) w w' p h known named =
      ap (λ (db : Db). has_grant role_id p.id db.role_permissions)
        (assign_role_permissions-eq-ok role_id n names w w' h)
      ∙ has_grant_of_mem w.db.role_permissions _ (grant organization_id role_id p) (
          mem-map (grant organization_id role_id) _ (
            mem-select_of_mem (λ (q : Permission). contains q.name (n ∷ names)) w.db.permissions
              known named))

  assign_role_permissions-roles :
      (role_id : String) (names : List String) (w w' : World)
      → assign_role_permissions organization_id role_id names w ≡ (ok tt, w')
      → w'.db.roles ≡ w.db.roles
  unfolding assign_role_permissions
  assign_role_permissions-roles role_id [] w w' h = ground (arith, h)
  assign_role_permissions-roles role_id (n ∷ names) w w' h =
      ap (λ (db : Db). db.roles) (assign_role_permissions-eq-ok role_id n names w w' h)

  assign_role_permissions_cases :
      (role_id : String) (names : List String) (w w' : World) (g : RolePermissionRow)
      → assign_role_permissions organization_id role_id names w ≡ (ok tt, w')
      → Memᴰ g w'.db.role_permissions
      → Memᴰ g w.db.role_permissions ⊎ NamedGrant organization_id role_id names w.db.permissions g
  unfolding assign_role_permissions
  assign_role_permissions_cases role_id [] w w' g h m =
      let same : w'.db.role_permissions ≡ w.db.role_permissions = ground (arith, h) in
      inl (subst (Memᴰ g) same m)
  assign_role_permissions_cases role_id (n ∷ names) w w' g h m =
      let test = λ (p : Permission). contains p.name (n ∷ names) in
      let here =
        subst (λ (db : Db). Memᴰ g db.role_permissions)
          (assign_role_permissions-eq-ok role_id n names w w' h) m in
      elim (insert_grants_cases w.db.role_permissions _ g here) [
        | inl old ↦ inl old
        | inr new ↦
            let (p, k, e) =
              mem-map_cases (grant organization_id role_id) (select test w.db.permissions) new in
            inr (record {
              permission = p;
              listed = mem_of_mem-select test w.db.permissions k;
              requested = test_of_mem-select test w.db.permissions k;
              granted_in = ap (λ (x : RolePermissionRow). x.organization_id) e;
              granted_role = ap (λ (x : RolePermissionRow). x.role_id) e;
              granted = ap (λ (x : RolePermissionRow). x.permission_id) e;
            })
      ]

  get_role-eq-ok :
      (role_id : String) (w w' : World) (r : Role)
      → get_role organization_id role_id w ≡ (ok r, w')
      → (r.id ≡ role_id) × (w'.db ≡ w.db)
  unfolding get_role select_role_sql
  get_role-eq-ok role_id w w' r h =
      let sql = select_role_sql organization_id role_id in
      let (rs, ran) =
        statement-eq-ok sql w
          (map_error-eq-ok (statement sql) w (no_rows_to (sentinel role_not_found)) h) in
      let test = λ (r : RoleRow). r.organization_id == organization_id && r.id == role_id in
      elim (Option-cases (find test w.db.roles)) [
        | inl missing ↦ absurd (ground (arith, ran, missing))
        | inr (row, found) ↦
            let (listed, fits) = find-eq-some test w.db.roles found in
            (ground (arith, ran, found, fits, eq_iff row.id role_id), ground (arith, ran, found))
      ]

  -- A role that CreateRole returns is the only new one, of the organization and under its name; it
  -- has a grant for every permission of a requested name, and no other grant is new.
  pub create_role-IsCreated :
      (name : String) (names : List String) (w w' : World) (r : Role)
      → create_role organization_id name names w ≡ (ok r, w')
      → IsCreated organization_id name names w.db w'.db r.id
  unfolding create_role create_role_tx
  create_role-IsCreated name names w w' r h =
      let t =
        with_tenant_query-eq-ok organization_id w (create_role_tx organization_id name names) h in
      let start = tenant_start organization_id w t.start_replies in
      let (row, w1, e1, h1) = >>=-eq-ok (insert_role organization_id name) _ start t.ran in
      let (u, w2, e2, h2) =
        >>=-eq-ok (assign_role_permissions organization_id row.id names) _ w1 h1 in
      let (free, is, db1) = insert_role-eq-ok name start w1 row e1 in
      let (same_id, db3) = get_role-eq-ok row.id w2 t.final r h2 in
      let final : w'.db ≡ w2.db = t.db ∙ db3 in
      let roles : w'.db.roles ≡ start.db.roles ++ row ∷ [] =
        ap (λ (db : Db). db.roles) final
        ∙ assign_role_permissions-roles row.id names w1 w2 e2
        ∙ ap (λ (db : Db). db.roles) db1
        ∙ ap (λ (x : RoleRow). start.db.roles ++ x ∷ []) (sym is) in
      record {
        was_free = free;
        row = row;
        roles = roles;
        row_id = sym same_id;
        row_organization = ap (λ (x : RoleRow). x.organization_id) is;
        row_name = ap (λ (x : RoleRow). x.name) is;
        grants = λ p known named.
            ap (λ (id : String). has_grant id p.id w'.db.role_permissions) same_id
            ∙ ap (λ (db : Db). has_grant row.id p.id db.role_permissions) final
            ∙ assign_role_permissions-grants row.id names w1 w2 p e2
                (subst (λ (db : Db). Memᴰ p db.permissions) (sym db1) known) named;
        new_grants = λ g listed.
            elim (assign_role_permissions_cases row.id names w1 w2 g e2
              (subst (λ (db : Db). Memᴰ g db.role_permissions) final listed)) [
                | inl old ↦ inl (subst (λ (db : Db). Memᴰ g db.role_permissions) db1 old)
                | inr new ↦ inr (
                    subst (λ id. NamedGrant organization_id id names start.db.permissions g)
                      (sym same_id)
                      (subst (λ (db : Db). NamedGrant organization_id row.id names db.permissions g)
                        db1 new))
              ];
      }

  -- The same for the service, whose audit entry touches the audit log only.
  pub create_role_logged-IsCreated :
      (actor name : String) (names : List String) (w w' : World) (r : Role)
      → create_role_logged organization_id actor name names w ≡ (ok r, w')
      → IsCreated organization_id (trim_space name) (unique_strings names) w.db w'.db r.id
  unfolding create_role_logged log insert_audit_log_sql
  create_role_logged-IsCreated actor name names w w' r h =
      let (r1, w1, e1, h1) =
        >>=-eq-ok (create_role organization_id (trim_space name) (unique_strings names)) _ w h in
      let entry = event organization_id actor "role_created" "role" r1.id in
      let (u, w2, e2, h2) =
        >>=-eq-ok (log entry) (λ u. pure r1) w1 {b = r} {w'' = w'} (ground (arith, h1)) in
      let (rs, ran) = statement-eq-ok (insert_audit_log_sql entry) w1 e2 in
      let c = create_role-IsCreated (trim_space name) (unique_strings names) w w1 r1 e1 in
      let roles : w'.db.roles ≡ w1.db.roles = ground (arith, h2, ran) in
      let grants : w'.db.role_permissions ≡ w1.db.role_permissions = ground (arith, h2, ran) in
      let same : r1.id ≡ r.id = ground (arith, h2) in
      record {
        was_free = c.was_free;
        row = c.row;
        roles = roles ∙ c.roles;
        row_id = c.row_id ∙ same;
        row_organization = c.row_organization;
        row_name = c.row_name;
        grants = λ p known named.
            ap (λ (id : String). has_grant id p.id w'.db.role_permissions) (sym same)
            ∙ ap (λ (gs : List RolePermissionRow). has_grant r1.id p.id gs) grants
            ∙ c.grants p known named;
        new_grants = λ g listed. elim (c.new_grants g (subst (Memᴰ g) grants listed)) [
          | inl old ↦ inl old
          | inr new ↦ inr (
              subst (λ id. NamedGrant organization_id id (unique_strings names) w.db.permissions g)
                same new)
        ];
      }
