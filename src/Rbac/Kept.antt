-- ===== src/Rbac/Kept.antt =====
-- To show that every call of the rbac repository keeps a property of the database, it is enough to
-- show it of the SQL statements.
use modular_monolith.Prelude.{String, List, nat_beq, length}
use modular_monolith.Failure.{sentinel, unknown_permissions, role_not_found, user_role_not_found}
use modular_monolith.Tables.{Db}
use modular_monolith.Session.{World, pure, fail, set_tenant_context}
use modular_monolith.Session.Transactions.{KeepsDb, with_tenant_query-KeepsDb}
use modular_monolith.Session.Keeps.{
  Keeps-pure, Keeps-fail, Keeps-statement, Keeps-bind, Keeps-map_error, Keeps-if,
}
use modular_monolith.Rbac.Statements.{
  unique_strings, insert_role_sql, grant_named_sql, insert_default_roles_sql,
  insert_default_grants_sql,
}
use modular_monolith.Rbac.Queries.{insert_user_role_sql, delete_user_role_sql, select_role_sql}
use modular_monolith.Rbac.Repository.{
  no_rows_to, map_constraint_error, insert_role, assign_role_permissions, get_role, create_role_tx,
  create_role, bootstrap_default_roles_tx, bootstrap_default_roles, assign_role_to_user,
  remove_role_from_user,
}
use modular_monolith.Rbac.Calls.{Call, creates_role, bootstraps, assigns, removes, step}

-- The statements that an organization's calls run keep `P`.
pub record StatementsKeep (P : Db → Type 0) (organization_id : String) : Type 0 where
  pub insert_role : (name : String) → KeepsDb P (insert_role_sql organization_id name)
  pub grant_named :
      (role_id : String) (names : List String)
      → KeepsDb P (grant_named_sql organization_id role_id names)
  pub default_roles : KeepsDb P (insert_default_roles_sql organization_id)
  pub default_grants : KeepsDb P (insert_default_grants_sql organization_id)
  pub insert_user_role :
      (user_id role_id : String) → KeepsDb P (insert_user_role_sql organization_id user_id role_id)
  pub delete_user_role :
      (user_id role_id : String) → KeepsDb P (delete_user_role_sql organization_id user_id role_id)

module _ (P : Db → Type 0) (organization_id : String)
    (keep : StatementsKeep P organization_id) where
  assign_role_permissions-KeepsDb :
      (role_id : String) (names : List String)
      → KeepsDb P (assign_role_permissions organization_id role_id names)
  unfolding assign_role_permissions
  assign_role_permissions-KeepsDb role_id names =
      Keeps-if (nat_beq (length names) 0) (pure tt) _ (Keeps-pure tt) (
        Keeps-bind _ _
          (Keeps-map_error map_constraint_error _
            (Keeps-statement _ (keep.grant_named role_id names)))
          (λ affected.
            Keeps-if (nat_beq affected (length (unique_strings names))) (pure tt)
              (fail (sentinel unknown_permissions)) (Keeps-pure tt)
              (Keeps-fail (sentinel unknown_permissions))))

  get_role-KeepsDb : (role_id : String) → KeepsDb P (get_role organization_id role_id)
  unfolding get_role select_role_sql
  get_role-KeepsDb role_id =
      Keeps-map_error (no_rows_to (sentinel role_not_found)) _
        (Keeps-statement _ (record { at = λ w h. h }))

  pub create_role_tx-KeepsDb :
      (name : String) (names : List String) → KeepsDb P (create_role_tx organization_id name names)
  unfolding create_role_tx insert_role
  create_role_tx-KeepsDb name names =
      Keeps-bind _ _
        (Keeps-map_error map_constraint_error _ (Keeps-statement _ (keep.insert_role name)))
        λ role.
          Keeps-bind _ _ (assign_role_permissions-KeepsDb role.id names)
            λ _. get_role-KeepsDb role.id

  pub bootstrap_default_roles_tx-KeepsDb : KeepsDb P (bootstrap_default_roles_tx organization_id)
  unfolding bootstrap_default_roles_tx set_tenant_context
  bootstrap_default_roles_tx-KeepsDb =
      Keeps-bind _ _ (Keeps-statement _ (record { at = λ w h. h })) λ _.
        Keeps-bind _ _
          (Keeps-map_error map_constraint_error _ (Keeps-statement _ keep.default_roles))
          λ _. Keeps-map_error map_constraint_error _ (Keeps-statement _ keep.default_grants)

  pub step-keeps : (call : Call) (w : World) → P w.db → P (step organization_id call w).db
  unfolding step create_role bootstrap_default_roles assign_role_to_user remove_role_from_user
  step-keeps (creates_role name names) =
      (with_tenant_query-KeepsDb P _ (create_role_tx-KeepsDb name names) organization_id).at
  step-keeps bootstraps =
      (with_tenant_query-KeepsDb P _ bootstrap_default_roles_tx-KeepsDb organization_id).at
  step-keeps (assigns user_id role_id) =
      (Keeps-map_error map_constraint_error _ (
        with_tenant_query-KeepsDb P _ (Keeps-statement _ (keep.insert_user_role user_id role_id))
          organization_id)).at
  step-keeps (removes user_id role_id) =
      (Keeps-map_error (no_rows_to (sentinel user_role_not_found)) _ (
        with_tenant_query-KeepsDb P _ (Keeps-statement _ (keep.delete_user_role user_id role_id))
          organization_id)).at
