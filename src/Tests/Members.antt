-- ===== src/Tests/Members.antt =====
-- The theorems on requests, members, onboarding and invitations on the small database.
use modular_monolith.Prelude.{String, ◌≡◌, refl, ◌⊎◌, true, false, some, none, []}
use modular_monolith.Failure.{ok, err, sentinel, already_accepted}
use modular_monolith.Session.{World}
use modular_monolith.Access.{Context, no_context, Handler, refuse, protected}
use modular_monolith.Access.Subscribed.{
  require_subscription, Subscribed, require_subscription_cases,
}
use modular_monolith.Access.Protection.{Refused, Admitted, protected_cases}
use modular_monolith.Members.{create_membership_with_role}
use modular_monolith.Organizations.{register_organization}
use modular_monolith.Onboarding.{OnboardingResult, complete_onboarding}
use modular_monolith.Onboarding.Completion.{Onboarded, complete_onboarding-Onboarded}
use modular_monolith.Invitations.{accept_invitation}
use modular_monolith.Invitations.Acceptance.{accept_invitation-once}
use modular_monolith.Identities.{refreshed, find_or_create_identity}
use modular_monolith.Identities.Lookup.{
  Identified, find_or_create_identity-Identified, find_or_create_identity-again,
}
use modular_monolith.Invitations.{new_invitation, validity, create_invitation, get_invitation}
use modular_monolith.Invitations.Creation.{Invited, create_invitation-get}
use modular_monolith.Session.{M, pure}
use modular_monolith.Session.Transactions.{Answers}
use modular_monolith.Tables.{Invitation}
use modular_monolith.Prelude.{◌+◌}
use modular_monolith.Tests.World.{alice_session, start, for_bob, bob_identity}

abbrev greet : Handler
greet c = refuse 200 "hello"

protected_cases_example :
    Refused start (protected (ok alice_session) "settings.write" greet start)
    ⊎ Admitted
        (ok alice_session)
        "settings.write"
        greet
        start
        (protected (ok alice_session) "settings.write" greet start)
protected_cases_example = protected_cases (ok alice_session) "settings.write" greet start

-- Alice gets through.
alice_greeted : (protected (ok alice_session) "settings.write" greet start).0.status ≡ 200
unfolding protected modular_monolith.Access.session_identity
    modular_monolith.Access.resolve_membership modular_monolith.Members.get_default_membership
    modular_monolith.Session.round_trip modular_monolith.Members.select_membership_sql
    modular_monolith.Access.tenant_context modular_monolith.Access.require_permission
    modular_monolith.Rbac.Repository.user_has_permission modular_monolith.Session.with_tenant_query
    modular_monolith.Session.in_transaction modular_monolith.Session.set_tenant_context
    modular_monolith.Rbac.Queries.user_has_permission_sql
alice_greeted = refl

-- Without the permission she does not.
alice_denied : (protected (ok alice_session) "billing.write" greet start).0.status ≡ 403
unfolding protected modular_monolith.Access.session_identity
    modular_monolith.Access.resolve_membership modular_monolith.Members.get_default_membership
    modular_monolith.Session.round_trip modular_monolith.Members.select_membership_sql
    modular_monolith.Access.tenant_context modular_monolith.Access.require_permission
    modular_monolith.Rbac.Repository.user_has_permission modular_monolith.Session.with_tenant_query
    modular_monolith.Session.in_transaction modular_monolith.Session.set_tenant_context
    modular_monolith.Rbac.Queries.user_has_permission_sql
alice_denied = refl

abbrev bob_onboarded : OnboardingResult
bob_onboarded = record { organization_id = "new"; organization_name = "Bob's"; user_id = "new" }

complete_onboarding_example :
    Onboarded "i-bob" "bob@acme" "Bob's" start.db bob_onboarded
      (complete_onboarding true "i-bob" "bob@acme" "Bob's" start).1.db
unfolding complete_onboarding modular_monolith.Members.has_membership
    modular_monolith.Session.round_trip modular_monolith.Members.count_users_sql
    modular_monolith.Onboarding.onboard modular_monolith.Onboarding.new_uuid register_organization
    modular_monolith.Session.with_transaction modular_monolith.Session.in_transaction
    modular_monolith.Organizations.register_organization_tx
    modular_monolith.Session.set_tenant_context modular_monolith.Organizations.create_organization
    modular_monolith.Organizations.insert_organization_sql
    modular_monolith.Rbac.Repository.bootstrap_default_roles_tx
    modular_monolith.Rbac.Statements.insert_default_roles_sql
    modular_monolith.Rbac.Statements.add_missing_roles
    modular_monolith.Rbac.Statements.insert_default_grants_sql
    modular_monolith.Audit.insert_audit_log_sql modular_monolith.Audit.log
    modular_monolith.Members.add_assignments modular_monolith.Members.create_membership
    create_membership_with_role modular_monolith.Members.insert_membership_sql
    modular_monolith.Members.insert_named_role_sql modular_monolith.Members.insert_user
    modular_monolith.Members.membership_with_role_tx modular_monolith.Members.user_exists
    modular_monolith.Onboarding.assign_first modular_monolith.Onboarding.assign_owner_role
    modular_monolith.Onboarding.create_owner modular_monolith.Organizations.is_unique_violation
    modular_monolith.Prelude.sort_by modular_monolith.Rbac.Queries.insert_user_role_sql
    modular_monolith.Rbac.Queries.list_roles_sql modular_monolith.Rbac.Queries.permissions_of
    modular_monolith.Rbac.Repository.assign_role_to_user
    modular_monolith.Rbac.Repository.bootstrap_default_roles
    modular_monolith.Rbac.Repository.list_roles
    modular_monolith.Rbac.Repository.map_constraint_error
    modular_monolith.Rbac.Statements.grants_by_default
    modular_monolith.Rbac.Statements.insert_grants modular_monolith.Session.with_tenant_query
complete_onboarding_example =
    complete_onboarding-Onboarded "i-bob" "bob@acme" "Bob's" start
      (complete_onboarding true "i-bob" "bob@acme" "Bob's" start).1 bob_onboarded refl

accept_invitation-once_example :
    accept_invitation false "t-bob" "i-alice" "alice@acme"
      (accept_invitation true "t-bob" "i-bob" "bob@acme" start).1
    ≡ (err (sentinel already_accepted), (accept_invitation true "t-bob" "i-bob" "bob@acme" start).1)
unfolding accept_invitation modular_monolith.Invitations.get_by_token
    modular_monolith.Session.round_trip modular_monolith.Invitations.select_invitation_sql
    modular_monolith.Invitations.accept_found modular_monolith.Invitations.join
    modular_monolith.Invitations.create_member create_membership_with_role
    modular_monolith.Session.with_tenant_query modular_monolith.Session.in_transaction
    modular_monolith.Session.set_tenant_context modular_monolith.Members.membership_with_role_tx
    modular_monolith.Members.insert_membership_sql modular_monolith.Members.insert_named_role_sql
    modular_monolith.Invitations.mark_accepted modular_monolith.Invitations.accept_invitation_sql
    modular_monolith.Audit.log modular_monolith.Audit.insert_audit_log_sql
    modular_monolith.Invitations.assign_role modular_monolith.Members.add_assignments
    modular_monolith.Members.create_membership modular_monolith.Members.insert_user
    modular_monolith.Members.user_exists modular_monolith.Onboarding.assign_first
    modular_monolith.Prelude.sort_by modular_monolith.Rbac.Queries.insert_user_role_sql
    modular_monolith.Rbac.Queries.list_roles_sql modular_monolith.Rbac.Queries.permissions_of
    modular_monolith.Rbac.Repository.assign_role_to_user modular_monolith.Rbac.Repository.list_roles
    modular_monolith.Rbac.Repository.map_constraint_error
accept_invitation-once_example =
    accept_invitation-once "t-bob" "i-bob" "bob@acme" start
      (accept_invitation true "t-bob" "i-bob" "bob@acme" start).1 for_bob refl refl false "i-alice"
      "alice@acme"

find_or_create_identity_example :
    Identified "z-bob" "bob@acme" "Robert"
      (refreshed start "bob@acme" "Robert" bob_identity)
      (find_or_create_identity "z-bob" "bob@acme" "Robert" start).1.db.identities
unfolding find_or_create_identity modular_monolith.Identities.get_by_zitadel_user_id
    modular_monolith.Session.round_trip modular_monolith.Identities.select_by_provider_id_sql
    modular_monolith.Identities.find_or_create_found modular_monolith.Identities.update_identity
    modular_monolith.Identities.update_identity_sql
find_or_create_identity_example =
    find_or_create_identity-Identified "z-bob" "bob@acme" "Robert" start
      (find_or_create_identity "z-bob" "bob@acme" "Robert" start).1
      (refreshed start "bob@acme" "Robert" bob_identity) refl

find_or_create_identity-again_example :
    find_or_create_identity "z-bob" "bob@acme" "Robert"
      (find_or_create_identity "z-bob" "bob@acme" "Robert" start).1
    ≡ (
      ok (refreshed start "bob@acme" "Robert" bob_identity),
      (find_or_create_identity "z-bob" "bob@acme" "Robert" start).1,
    )
unfolding find_or_create_identity modular_monolith.Identities.get_by_zitadel_user_id
    modular_monolith.Session.round_trip modular_monolith.Identities.select_by_provider_id_sql
    modular_monolith.Identities.find_or_create_found modular_monolith.Identities.update_identity
    modular_monolith.Identities.update_identity_sql
find_or_create_identity-again_example =
    find_or_create_identity-again "z-bob" "bob@acme" "Robert" start
      (find_or_create_identity "z-bob" "bob@acme" "Robert" start).1
      (refreshed start "bob@acme" "Robert" bob_identity) refl refl

abbrev acme_context : Context
acme_context = record no_context { organization_id = some "acme" }

require_subscription_cases_example :
    (((require_subscription greet acme_context start).0.status ≡ 403)
      × ((require_subscription greet acme_context start).1.db ≡ start.db))
    ⊎ Subscribed greet acme_context start (require_subscription greet acme_context start)
require_subscription_cases_example = require_subscription_cases greet acme_context start

-- The token source of the example.
abbrev fixed_token : M String
fixed_token = pure "t-carol"

abbrev for_carol : Invitation
for_carol = new_invitation start "acme" "carol@acme" "member" "t-carol" (10 + validity)

create_invitation_example :
    Invited "acme" "carol@acme" "member" 10 for_carol
      (create_invitation fixed_token "acme" "carol@acme" "member" start).1.db
    × (Answers (create_invitation fixed_token "acme" "carol@acme" "member" start).1
        → get_invitation "t-carol"
            (create_invitation fixed_token "acme" "carol@acme" "member" start).1
          ≡ (ok for_carol, (create_invitation fixed_token "acme" "carol@acme" "member" start).1))
unfolding create_invitation modular_monolith.Invitations.create
    modular_monolith.Session.with_tenant_query modular_monolith.Session.round_trip
    modular_monolith.Session.in_transaction modular_monolith.Session.set_tenant_context
    modular_monolith.Invitations.insert_invitation_sql
create_invitation_example =
    create_invitation-get "acme" "carol@acme" "member" fixed_token start
      (create_invitation fixed_token "acme" "carol@acme" "member" start).1 for_carol refl
