-- ===== src/Onboarding.antt =====
-- internal/modules/onboarding/service.go with the adapters of internal/router/routes.go.
pub mod Handler
pub mod Ownership
pub mod Completion
use modular_monolith.Prelude.{
  String, ◌==◌, Bool, true, false, List, [], ◌∷◌, none, some, if◌then◌else◌, suc,
}
use modular_monolith.Failure.{Result, ok, err, sentinel, wrap, already_onboarded}
use modular_monolith.Session.{World, M, pure, fail, map_error, ◌>>=◌, ◌>>◌}
use modular_monolith.Audit.{Event, log, ignore_error}
use modular_monolith.Members.{create_membership, create_membership_with_role, has_membership}
use modular_monolith.Organizations.{register_organization}
use modular_monolith.Rbac.Statements.{Role}
use modular_monolith.Rbac.Repository.{bootstrap_default_roles, list_roles, assign_role_to_user}

pub record OnboardingResult : Type 0 where
  pub organization_id : String
  pub organization_name : String
  pub user_id : String

-- The loop of `AssignOwnerRole` and `AssignRole`: the first role of the name, if there is one.
unfoldable pub assign_first : String → String → String → List Role → M (Unit {0})
assign_first organization_id user_id name [] = pure tt
assign_first organization_id user_id name (role ∷ roles) =
    let rest = assign_first organization_id user_id name roles in
    if role.name == name
    then (assign_role_to_user organization_id user_id role.id >>= λ _. pure tt)
    else rest

-- `onboardingRoleAdapter.AssignOwnerRole`
unfoldable pub assign_owner_role : String → String → M (Unit {0})
assign_owner_role organization_id user_id = do
  bootstrap_default_roles organization_id
  roles ← list_roles organization_id
  assign_first organization_id user_id "owner" roles

-- Step 2; `with_role` tells whether `UsersWithRole` is set, as the router does.
unfoldable pub create_owner : Bool → String → String → String → M String
create_owner true organization_id identity_id email = do
  u ←
      map_error (wrap "onboarding: create user with role failed")
        (create_membership_with_role organization_id identity_id email "owner")
  pure u.id
create_owner false organization_id identity_id email = do
  u ←
      map_error (wrap "onboarding: create user failed")
        (create_membership organization_id identity_id email)
  map_error (wrap "onboarding: assign role failed") (assign_owner_role organization_id u.id)
  pure u.id

-- `onboardingAuditAdapter.LogOnboarding`
abbrev pub onboarding_event : String → String → String → Event
onboarding_event organization_id user_id organization_name = record {
  organization_id = organization_id;
  user_id = user_id;
  action = "onboarding_completed";
  entity_type = "organization";
  entity_id = organization_id;
  metadata = some (("organization_name", organization_name) ∷ []);
}

abbrev pub log_onboarding : String → String → String → M (Unit {0})
log_onboarding organization_id user_id organization_name =
    ignore_error (log (onboarding_event organization_id user_id organization_name))

-- `uuid.New().String()`
unfoldable pub new_uuid : M String
new_uuid w = (ok (w.uuid w.drawn), record w { drawn = suc w.drawn })

-- `CompleteOnboarding` after the check for a membership.
unfoldable pub onboard : Bool → String → String → String → M OnboardingResult
onboard with_role identity_id email organization_name = do
  org_id ← new_uuid
  o ← register_organization org_id organization_name
  user_id ← create_owner with_role o.organization_id identity_id email
  log_onboarding o.organization_id user_id organization_name
  pure (record {
    organization_id = o.organization_id;
    organization_name = organization_name;
    user_id = user_id;
  })

unfoldable pub complete_onboarding : Bool → String → String → String → M OnboardingResult
complete_onboarding with_role identity_id email organization_name = do
  has ← has_membership identity_id
  if has
      then fail (sentinel already_onboarded)
      else onboard with_role identity_id email organization_name
