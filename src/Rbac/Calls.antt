-- ===== src/Rbac/Calls.antt =====
-- The calls of the rbac repository that change state, as one step: what a client of
-- internal/modules/rbac/repository.go can do to the database.
use modular_monolith.Prelude.{String, List, [], ◌∷◌}
use modular_monolith.Session.{World}
use modular_monolith.Rbac.Repository.{
  create_role, bootstrap_default_roles, assign_role_to_user, remove_role_from_user,
}

pub data Call : Type 0 where
  creates_role : (name : String) (permission_names : List String) → Call
  bootstraps : Call
  assigns removes : (user_id role_id : String) → Call

-- The world after the call, made for an organization; the caller's result is dropped.
unfoldable pub step : String → Call → World → World
step organization_id (creates_role name permission_names) w =
    (create_role organization_id name permission_names w).1
step organization_id bootstraps w = (bootstrap_default_roles organization_id w).1
step organization_id (assigns user_id role_id) w =
    (assign_role_to_user organization_id user_id role_id w).1
step organization_id (removes user_id role_id) w =
    (remove_role_from_user organization_id user_id role_id w).1

-- A history: calls for any organizations, one after the other.
unfoldable pub run : List (String × Call) → World → World
run [] w = w
run ((organization_id, call) ∷ calls) w = run calls (step organization_id call w)
