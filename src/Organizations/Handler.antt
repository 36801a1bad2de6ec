-- ===== src/Organizations/Handler.antt =====
-- internal/modules/organizations/handler.go and dto.go.
use modular_monolith.Prelude.{String, List, [], if◌then◌else◌}
use modular_monolith.Failure.{Error, Result, errors_is, organization_already_exists}
use modular_monolith.Tables.{Organization}
use modular_monolith.Session.{World}
use modular_monolith.Http.{Outcome, done, refused, with_body, answer, validated, required}
use modular_monolith.Organizations.{register_organization}

pub record CreateOrganizationRequest : Type 0 where
  pub zitadel_org_id : String
  pub name : String

-- `Validate`
unfoldable pub organization_errors : CreateOrganizationRequest → List (String × String)
unfolding required
organization_errors r = required "name" r.name (required "zitadel_org_id" r.zitadel_org_id [])

pub record OrganizationResponse : Type 0 where
  pub id : String
  pub organization_id : String
  pub name : String

abbrev organization_response : Organization → OrganizationResponse
organization_response o = record { id = o.id; organization_id = o.organization_id; name = o.name }

abbrev organization_error : Error → Outcome OrganizationResponse
organization_error e =
    if errors_is e organization_already_exists
    then refused 409 "organization already exists"
    else refused 500 "failed to create organization"

unfoldable pub create_organization_handler :
    Result CreateOrganizationRequest → World → Outcome OrganizationResponse × World
unfolding errors_is organization_errors
create_organization_handler body = with_body body λ req. validated (organization_errors req) λ w.
    answer (λ (o : Organization). done 201 (organization_response o)) organization_error
      (register_organization req.zitadel_org_id req.name w)
