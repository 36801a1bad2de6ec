-- ===== src/Rbac/Integrity/Preserved.antt =====
-- Every call of the rbac repository keeps the tables consistent.
use mathlib.Core.List.{Memᴰ}
use modular_monolith.Prelude.{
  String, ◌==◌, ◌≡◌, refl, Bool, true, false, ◌&&◌, List, [], ◌∷◌, arith, eq_refl, All, All-append,
  any, any_of_mem, select, Bool-cases, inl, inr, map, flat_map, mem_of_mem-select,
}
use modular_monolith.Tables.{Db, Permission, RoleRow, RolePermissionRow, UserRole}
use modular_monolith.Session.{World}
use modular_monolith.Rbac.Statements.{
  has_role_name, has_role_id, insert_grants, grant, contains, new_role, add_role, insert_role_sql,
  add_missing_roles, grant_named_sql, default_grants, default_roles, is_default_role_of,
  insert_default_roles_sql, insert_default_grants_sql,
}
use modular_monolith.Rbac.Queries.{
  is_assignment, new_assignment, insert_user_role_sql, delete_user_role_sql,
}
use modular_monolith.Rbac.Calls.{Call, step, run}
use modular_monolith.Rbac.Kept.{StatementsKeep, step-keeps}
use modular_monolith.Rbac.Integrity.{
  HasUniqueAssignments, NamesRole, AssignsRole, IsConsistent, HasUniqueNames-append,
  HasUniqueAssignments-append, All-NamesRole-append, All-AssignsRole-append, All-insert_grants,
  insert_grants_of_length,
}

add_role-IsConsistent :
    (organization_id name : String) (w : World)
    → IsConsistent w.db
    → has_role_name organization_id name w.db.roles ≡ false
    → IsConsistent (add_role w organization_id name).db
add_role-IsConsistent organization_id name w c fresh =
    let r = new_role w organization_id name in
    record {
      role_names = HasUniqueNames-append w.db.roles r c.role_names fresh;
      assignments = c.assignments;
      grants_refer = All-NamesRole-append w.db.role_permissions w.db.roles (r ∷ []) c.grants_refer;
      assignments_refer =
          All-AssignsRole-append w.db.user_roles w.db.roles (r ∷ []) c.assignments_refer;
    }

add_missing_roles-IsConsistent :
    (organization_id : String) (names : List String) (w : World)
    → IsConsistent w.db
    → IsConsistent (add_missing_roles organization_id names w).db
unfolding add_missing_roles
add_missing_roles-IsConsistent organization_id [] w c = c
add_missing_roles-IsConsistent organization_id (name ∷ names) w c =
    elim (Bool-cases (has_role_name organization_id name w.db.roles)) [
      | inl old ↦
          rw (old, add_missing_roles) (add_missing_roles-IsConsistent organization_id names w c)
      | inr new ↦
          rw (new, add_missing_roles)
            (add_missing_roles-IsConsistent organization_id names (add_role w organization_id name)
              (add_role-IsConsistent organization_id name w c new))
    ]

with_grants-IsConsistent :
    (db : Db) (gs : List RolePermissionRow)
    → IsConsistent db
    → All (NamesRole db.roles) gs
    → IsConsistent (record db { role_permissions = insert_grants db.role_permissions gs })
with_grants-IsConsistent db gs c h = record {
  role_names = c.role_names;
  assignments = c.assignments;
  grants_refer = All-insert_grants (NamesRole db.roles) db.role_permissions gs c.grants_refer h;
  assignments_refer = c.assignments_refer;
}

-- The grants of one role name it.
All-grant :
    (roles : List RoleRow) (organization_id role_id : String) (ps : List Permission)
    → has_role_id organization_id role_id roles ≡ true
    → All (NamesRole roles) (map (grant organization_id role_id) ps)
All-grant roles organization_id role_id [] h = tt
All-grant roles organization_id role_id (p ∷ ps) h =
    (h, All-grant roles organization_id role_id ps h)

-- The default grants name roles of the table that they were selected from.
All-default_grants :
    (roles : List RoleRow) (permissions : List Permission) (chosen : List RoleRow)
    → ((r : RoleRow) → Memᴰ r chosen → Memᴰ r roles)
    → All (NamesRole roles) (flat_map (default_grants permissions) chosen)
All-default_grants roles permissions [] listed = tt
All-default_grants roles permissions (r ∷ chosen) listed =
    All-append (NamesRole roles) (default_grants permissions r) _
      (All-grant roles r.organization_id r.id _ (
        any_of_mem (λ (s : RoleRow). s.organization_id == r.organization_id && s.id == r.id) roles
          (listed r (Memᴰ.head refl)) (ground (arith, eq_refl r.organization_id, eq_refl r.id))))
      (All-default_grants roles permissions chosen (λ s m. listed s (Memᴰ.tail m)))

insert_user_role-IsConsistent :
    (organization_id user_id role_id : String) (w : World)
    → IsConsistent w.db
    → IsConsistent (insert_user_role_sql organization_id user_id role_id w).1.db
unfolding insert_user_role_sql
insert_user_role-IsConsistent organization_id user_id role_id w c =
    let a = new_assignment w organization_id user_id role_id in
    ground (
      arith,
      HasUniqueAssignments-append w.db.user_roles a c.assignments,
      All-append (AssignsRole w.db.roles) w.db.user_roles (a ∷ []) c.assignments_refer,
    )

insert_role-IsConsistent :
    (organization_id name : String) (w : World)
    → IsConsistent w.db
    → IsConsistent (insert_role_sql organization_id name w).1.db
unfolding insert_role_sql
insert_role-IsConsistent organization_id name w c =
    ground (arith, add_role-IsConsistent organization_id name w c)

grant_named-IsConsistent :
    (organization_id role_id : String) (names : List String) (w : World)
    → IsConsistent w.db
    → IsConsistent (grant_named_sql organization_id role_id names w).1.db
unfolding grant_named_sql
grant_named-IsConsistent organization_id role_id names w c =
    let gs =
      map (grant organization_id role_id)
        (select (λ (p : Permission). contains p.name names) w.db.permissions) in
    elim (Bool-cases (has_role_id organization_id role_id w.db.roles)) [
      | inl listed ↦
          rw (listed, grant_named_sql)
            (with_grants-IsConsistent w.db gs c
              (All-grant w.db.roles organization_id role_id _ listed))
      | inr missing ↦ ground (arith, missing, c, insert_grants_of_length w.db.role_permissions gs)
    ]

select-AssignsRole :
    (roles : List RoleRow) (keep : UserRole → Bool) (rows : List UserRole)
    → All (AssignsRole roles) rows
    → All (AssignsRole roles) (select keep rows)
select-AssignsRole roles keep [] h = tt
select-AssignsRole roles keep (a ∷ rows) (first, h) =
    ground (arith, first, select-AssignsRole roles keep rows h)

any-select :
    (p keep : UserRole → Bool) (rows : List UserRole)
    → any p rows ≡ false
    → any p (select keep rows) ≡ false
any-select p keep [] h = refl
any-select p keep (a ∷ rows) h = ground (arith, h, any-select p keep rows)

select-HasUniqueAssignments :
    (keep : UserRole → Bool) (rows : List UserRole)
    → HasUniqueAssignments rows
    → HasUniqueAssignments (select keep rows)
select-HasUniqueAssignments keep [] u = tt
select-HasUniqueAssignments keep (a ∷ rows) (first, u) = ground (
  arith,
  any-select (is_assignment a.organization_id a.user_id a.role_id) keep rows first,
  select-HasUniqueAssignments keep rows u,
)

StatementsKeep-IsConsistent :
    (organization_id : String) → StatementsKeep IsConsistent organization_id
unfolding insert_default_roles_sql insert_default_grants_sql delete_user_role_sql
StatementsKeep-IsConsistent organization_id = record {
  insert_role = λ name. record { at = insert_role-IsConsistent organization_id name };
  grant_named =
      λ role_id names. record { at = grant_named-IsConsistent organization_id role_id names };
  default_roles = record { at = add_missing_roles-IsConsistent organization_id default_roles };
  default_grants = record {
    at = λ w c. with_grants-IsConsistent w.db _ c (
        All-default_grants w.db.roles w.db.permissions _
          (λ r m. mem_of_mem-select (is_default_role_of organization_id) w.db.roles m));
  };
  insert_user_role = λ user_id role_id. record {
    at = insert_user_role-IsConsistent organization_id user_id role_id;
  };
  delete_user_role = λ user_id role_id. record {
    at = λ w c. record {
      role_names = c.role_names;
      assignments = select-HasUniqueAssignments _ w.db.user_roles c.assignments;
      grants_refer = c.grants_refer;
      assignments_refer = select-AssignsRole w.db.roles _ w.db.user_roles c.assignments_refer;
    };
  };
}

-- From a consistent database on, in every history of calls, for any organizations and with any
-- failures of the connection, role
-- names stay unique in their organization, assignments are not doubled, and every grant and every
-- assignment names a role that exists in its organization.
pub run-IsConsistent :
    (calls : List (String × Call)) (w : World) → IsConsistent w.db → IsConsistent (run calls w).db
unfolding run
run-IsConsistent [] w c = c
run-IsConsistent ((organization_id, call) ∷ calls) w c =
    run-IsConsistent calls (step organization_id call w) (
      step-keeps IsConsistent organization_id (StatementsKeep-IsConsistent organization_id) call w
        c)
