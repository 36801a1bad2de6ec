-- ===== src/Members/Handler.antt =====
-- internal/modules/identityresolver/handler.go and internal/modules/users/handler.go.
use modular_monolith.Prelude.{String, ◌==◌, List, [], Option, none, some, if◌then◌else◌}
use modular_monolith.Failure.{Error, Result, ok, err, errors_is, user_already_exists}
use modular_monolith.Tables.{User}
use modular_monolith.Session.{World}
use modular_monolith.Audit.{Event, log}
use modular_monolith.Access.{IdentityContext, AuthenticatedUser}
use modular_monolith.Http.{
  Outcome, Serve, done, refused, refuse_with, in_organization, as_user, with_body, answer,
  validated, required, email_field,
}
use modular_monolith.Members.{Membership, create_user, list_memberships}

abbrev memberships_of : Option IdentityContext → World → Outcome (List Membership) × World
memberships_of none w = refuse_with 401 "identity context required" w
memberships_of (some i) w =
    if i.identity_id == ""
    then refuse_with 401 "identity context required" w
    else answer (λ l. done 200 l) (λ e. refused 500 "failed to list memberships")
        (list_memberships i.identity_id w)

unfoldable pub list_memberships_handler : Serve (List Membership)
list_memberships_handler c = memberships_of c.identity

pub record RegisterUserRequest : Type 0 where
  pub zitadel_user_id : String
  pub email : String

-- `Validate`
unfoldable pub user_errors : RegisterUserRequest → List (String × String)
unfolding required email_field
user_errors r =
    email_field "email" r.email
      (required "email" r.email (required "zitadel_user_id" r.zitadel_user_id []))

pub record UserResponse : Type 0 where
  pub id : String
  pub email : String

abbrev pub register_error : Error → Outcome UserResponse
register_error e =
    if errors_is e user_already_exists
    then refused 409 "user already exists"
    else refused 500 "failed to register user"

abbrev user_event : String → AuthenticatedUser → User → Event
user_event organization_id actor u = record {
  organization_id = organization_id;
  user_id = actor.user_id;
  action = "user_registered";
  entity_type = "user";
  entity_id = u.id;
  metadata = none;
}

abbrev user_response : User → UserResponse
user_response u = record { id = u.id; email = u.email }

abbrev audited : String → AuthenticatedUser → Result User × World → Outcome UserResponse × World
audited organization_id actor (err e, w) = (register_error e, w)
audited organization_id actor (ok u, w) =
    answer (λ (t : Unit {0}). done 201 (user_response u))
      (λ e. refused 500 "failed to create audit log") (log (user_event organization_id actor u) w)

unfoldable pub register_user_handler : Result RegisterUserRequest → Serve UserResponse
unfolding errors_is user_errors
register_user_handler body c = as_user c.user λ actor.
    in_organization c.organization_id λ organization_id. with_body body λ req.
      validated (user_errors req) λ w.
        audited organization_id actor (create_user organization_id req.zitadel_user_id req.email w)
