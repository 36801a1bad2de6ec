-- ===== src/Tests/Rbac.antt =====
-- The rbac theorems on the small database.
use modular_monolith.Prelude.{
  String, ◌≡◌, refl, ◌≢◌, ◌↔◌, ◌⊎◌, true, List, [], ◌∷◌, some, none, arith, eq_iff,
}
use modular_monolith.Failure.{ok, err, no_rows}
use modular_monolith.Tables.{UserRole}
use modular_monolith.Session.{
  World, with_tenant_query, in_transaction, set_tenant_context, round_trip,
}
use modular_monolith.Rbac.Statements.{has_role_name, contains, unique_strings}
use modular_monolith.Rbac.Queries.{insert_user_role_sql, user_has_permission_sql}
use modular_monolith.Rbac.Repository.{
  user_has_permission, assign_role_to_user, remove_role_from_user, create_role,
  bootstrap_default_roles,
}
use modular_monolith.Rbac.Access.{HasPermission, user_has_permission_iff}
use modular_monolith.Rbac.Calls.{Call, creates_role, bootstraps, assigns, removes, step, run}
use modular_monolith.Rbac.Isolation.{tenant_view, step-isolated}
use modular_monolith.Rbac.Decisions.{run-HasPermission}
use modular_monolith.Rbac.Integrity.{IsConsistent}
use modular_monolith.Rbac.Integrity.Preserved.{run-IsConsistent}
use modular_monolith.Rbac.Defaults.{HasDefaults, bootstrap_default_roles-HasDefaults}
use modular_monolith.Rbac.Assignments.{Assigned, assign-remove}
use modular_monolith.Rbac.Service.{assign_role_logged}
use modular_monolith.Rbac.Errors.{create_role-taken, assign_role_logged-error}
use modular_monolith.Rbac.Queries.{new_assignment}
use modular_monolith.Failure.{sentinel, role_already_exists, pg_error, pgconn_v1, pgx_v5}
use modular_monolith.Tests.World.{start}

user_has_permission_example :
    ((true ≡ true) ↔ HasPermission start.db "acme" "u-alice" "settings.write")
    × (start.db ≡ start.db)
unfolding user_has_permission with_tenant_query in_transaction set_tenant_context round_trip
    user_has_permission_sql
user_has_permission_example =
    user_has_permission_iff "acme" "u-alice" "settings.write" start start true refl

other : ◌≢◌ {A = String} "globex" "acme"
other = ground (arith, eq_iff "globex" "acme")

step-isolated_example :
    tenant_view "acme" (step "globex" bootstraps start).db ≡ tenant_view "acme" start.db
step-isolated_example = step-isolated "globex" "acme" other bootstraps start

abbrev foreign_calls : List (String × Call)
foreign_calls =
    ("globex", bootstraps)
    ∷ ("globex", creates_role "owner" ("settings.write" ∷ []))
    ∷ ("globex", removes "u-alice" "r-owner")
    ∷ []

run-HasPermission_example :
    HasPermission (run foreign_calls start).db "acme" "u-alice" "settings.write"
    ↔ HasPermission start.db "acme" "u-alice" "settings.write"
run-HasPermission_example =
    run-HasPermission "acme" "u-alice" "settings.write" foreign_calls start
      (other, (other, (other, tt)))

start-IsConsistent : IsConsistent start.db
start-IsConsistent = record {
  role_names = (refl, (refl, tt));
  assignments = (refl, tt);
  grants_refer = (refl, tt);
  assignments_refer = (refl, tt);
}

run-IsConsistent_example :
    IsConsistent (run (("acme", assigns "u-alice" "r-viewer") ∷ ("acme", bootstraps) ∷ []) start).db
run-IsConsistent_example =
    run-IsConsistent (("acme", assigns "u-alice" "r-viewer") ∷ ("acme", bootstraps) ∷ []) start
      start-IsConsistent

bootstrap_default_roles_example :
    HasDefaults "globex" start.db (bootstrap_default_roles "globex" start).1.db
unfolding bootstrap_default_roles with_tenant_query round_trip in_transaction set_tenant_context
    modular_monolith.Rbac.Repository.bootstrap_default_roles_tx
    modular_monolith.Rbac.Statements.insert_default_roles_sql
    modular_monolith.Rbac.Statements.add_missing_roles
    modular_monolith.Rbac.Statements.insert_default_grants_sql
bootstrap_default_roles_example =
    bootstrap_default_roles-HasDefaults "globex" start (bootstrap_default_roles "globex" start).1
      refl

assign-remove_example :
    (w'' : World) × (remove_role_from_user "acme" "u-alice" "r-viewer"
        (assign_role_to_user "acme" "u-alice" "r-viewer" start).1
      ≡ (ok (new_assignment start "acme" "u-alice" "r-viewer"), w''))
    × (w''.db ≡ start.db)
unfolding assign_role_to_user with_tenant_query round_trip in_transaction set_tenant_context
    insert_user_role_sql
assign-remove_example =
    assign-remove "acme" "u-alice" "r-viewer" start
      (new_assignment start "acme" "u-alice" "r-viewer")
      (assign_role_to_user "acme" "u-alice" "r-viewer" start).1 refl refl

create_role-taken_example :
    (start.driver ≡ pgconn_v1
      → (create_role "acme" "owner" ("settings.write" ∷ []) start).0
        ≡ err (sentinel role_already_exists))
    × (start.driver ≡ pgx_v5
        → (create_role "acme" "owner" ("settings.write" ∷ []) start).0
          ≡ err (pg_error pgx_v5 "23505" "roles_organization_id_name_key"))
create_role-taken_example =
    create_role-taken "acme" "owner" ("settings.write" ∷ []) start refl
      (ground (arith, eq_iff "acme" "")) refl

-- The begin, the tenant setting, the statement and the commit succeed, then the audit entry fails.
abbrev unaudited : World
unaudited = record start { replies = none ∷ none ∷ none ∷ none ∷ some no_rows ∷ [] }

assign_role_logged-error_example :
    ((assign_role_logged "acme" "u-alice" "u-alice" "r-viewer" unaudited).1.db ≡ unaudited.db)
    ⊎ ((a : UserRole) × (v : World) × Assigned "acme" "u-alice" "r-viewer" unaudited a v
        × ((assign_role_logged "acme" "u-alice" "u-alice" "r-viewer" unaudited).1.db ≡ v.db))
unfolding assign_role_logged assign_role_to_user with_tenant_query round_trip in_transaction
    set_tenant_context insert_user_role_sql modular_monolith.Audit.log
assign_role_logged-error_example =
    assign_role_logged-error "acme" "u-alice" "u-alice" "r-viewer" unaudited
      (assign_role_logged "acme" "u-alice" "u-alice" "r-viewer" unaudited).1 {e = no_rows} refl
