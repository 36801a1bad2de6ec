-- ===== src/Rbac/Errors.antt =====
-- What the callers of the rbac repository and service are told when something is wrong.
use modular_monolith.Prelude.{String, ◌≡◌, ◌≢◌, ◌⊎◌, inl, inr, true, List, arith, eq_iff}
use modular_monolith.Failure.{
  Error, err, sentinel, role_already_exists, pg_error, pgconn_v1, pgx_v5,
}
use modular_monolith.Tables.{UserRole}
use modular_monolith.Session.{
  World, statement, round_trip, set_tenant_context, in_transaction, with_tenant_query,
}
use modular_monolith.Session.Atomic.{outcome_cases, statement_cases}
use modular_monolith.Session.Transactions.{Answers, with_tenant_query-rolls_back}
use modular_monolith.Audit.{log, insert_audit_log_sql}
use modular_monolith.Rbac.Statements.{has_role_name, insert_role_sql}
use modular_monolith.Rbac.Queries.{insert_user_role_sql}
use modular_monolith.Rbac.Repository.{
  map_constraint_error, insert_role, create_role_tx, create_role, assign_role_to_user,
}
use modular_monolith.Rbac.Assignments.{Assigned, assign_role_to_user-Assigned}
use modular_monolith.Rbac.Service.{event, assign_role_logged}

module _ (organization_id name : String) (permission_names : List String) (w : World)
    (q : Answers w) (named : organization_id ≢ "")
    (taken : has_role_name organization_id name w.db.roles ≡ true) where
  -- A role name that an organization, not the empty one, has is refused while the connection
  -- answers: with
  -- ErrRoleAlreadyExists if the pool's errors are of the package jackc/pgconn, and with the
  -- driver's error as it is if they are of pgx/v5.
  pub create_role-taken :
      (w.driver ≡ pgconn_v1
        → (create_role organization_id name permission_names w).0
          ≡ err (sentinel role_already_exists))
      × (w.driver ≡ pgx_v5
          → (create_role organization_id name permission_names w).0
            ≡ err (pg_error pgx_v5 "23505" "roles_organization_id_name_key"))
  unfolding create_role with_tenant_query in_transaction set_tenant_context round_trip
      create_role_tx insert_role insert_role_sql map_constraint_error
  create_role-taken = (
    λ d. ground (arith, q, taken, d, eq_iff organization_id ""),
    λ d. ground (arith, q, taken, d, eq_iff organization_id ""),
  )

module _ (organization_id actor_user_id user_id role_id : String) (w w' : World) {e : Error} where
  assign_role_to_user-error :
      assign_role_to_user organization_id user_id role_id w ≡ (err e, w') → w'.db ≡ w.db
  unfolding assign_role_to_user
  assign_role_to_user-error h =
      let insert = statement (insert_user_role_sql organization_id user_id role_id) in
      elim (outcome_cases (with_tenant_query organization_id insert w)) [
        | inl (a, v, ran) ↦ absurd (ground (arith, ran, h))
        | inr (x, v, ran) ↦
            ground (arith, ran, h, with_tenant_query-rolls_back organization_id insert w ran)
      ]

  -- An error of the service's AssignRoleToUser means that nothing changed; or that the assignment is
  -- stored and only its audit entry is missing.
  pub assign_role_logged-error :
      assign_role_logged organization_id actor_user_id user_id role_id w ≡ (err e, w')
      → (w'.db ≡ w.db)
        ⊎ ((a : UserRole) × (v : World) × Assigned organization_id user_id role_id w a v
            × (w'.db ≡ v.db))
  unfolding assign_role_logged log insert_audit_log_sql
  assign_role_logged-error h =
      elim (outcome_cases (assign_role_to_user organization_id user_id role_id w)) [
        | inl (a, v, ran) ↦
            let entry = event organization_id actor_user_id "role_assigned" "user_role" a.id in
            let stored = assign_role_to_user-Assigned organization_id user_id role_id w a v ran in
            elim (statement_cases (insert_audit_log_sql entry) v) [
              | inl (rs, written) ↦ absurd (ground (arith, ran, h, written))
              | inr (x, rs, failed) ↦ inr (a, v, stored, ground (arith, ran, h, failed))
            ]
        | inr (x, v, ran) ↦ inl (assign_role_to_user-error (ground (arith, ran, h)))
      ]
