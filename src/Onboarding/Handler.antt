-- ===== src/Onboarding/Handler.antt =====
-- internal/modules/onboarding/handler.go. The session is what `GetSession` returns.
use modular_monolith.Prelude.{String, ◌==◌, if◌then◌else◌, true}
use modular_monolith.Failure.{Error, Result, ok, err, errors_is, already_onboarded}
use modular_monolith.Tables.{Identity}
use modular_monolith.Session.{World}
use modular_monolith.Http.{Outcome, done, refused, refuse_with, with_body, answer}
use modular_monolith.Members.{resolve_identity}
use modular_monolith.Authflow.User.{SessionUser}
use modular_monolith.Onboarding.{OnboardingResult, complete_onboarding}

pub record OnboardingResponse : Type 0 where
  pub organization_id : String
  pub organization_name : String

abbrev pub onboarding_response : OnboardingResult → OnboardingResponse
onboarding_response r = record {
  organization_id = r.organization_id;
  organization_name = r.organization_name;
}

abbrev pub onboarding_error : Error → Outcome OnboardingResponse
onboarding_error e =
    if errors_is e already_onboarded
    then refused 409 "identity already onboarded"
    else refused 500 "onboarding failed"

abbrev pub onboard_as :
    String → SessionUser → Result Identity × World → Outcome OnboardingResponse × World
onboard_as name user (err e, w) = refuse_with 500 "failed to resolve identity" w
onboard_as name user (ok i, w) =
    answer (λ (r : OnboardingResult). done 201 (onboarding_response r)) onboarding_error
      (complete_onboarding true i.id user.email name w)

-- The body is the decoded `organization_name`; the service is set up as the router does.
unfoldable pub complete_onboarding_handler :
    Result SessionUser → Result String → World → Outcome OnboardingResponse × World
unfolding errors_is
complete_onboarding_handler (err e) body w = refuse_with 401 "not authenticated" w
complete_onboarding_handler (ok user) body w =
    with_body body
      (λ name v.
        if name == ""
        then refuse_with 400 "organization_name is required" v
        else onboard_as name user (resolve_identity user.subject v))
      w
