-- ===== src/Invitations/Handler.antt =====
-- internal/modules/invitations/handler.go. The session is what `GetSession` returns.
use modular_monolith.Prelude.{String, ◌==◌, ◌||◌, if◌then◌else◌, true, joined, Option, none, some}
use modular_monolith.Failure.{
  Error, Result, ok, err, errors_is, invalid_role, invitation_not_found, invitation_expired,
  email_mismatch, already_accepted, user_already_exists,
}
use modular_monolith.Tables.{Invitation, Identity}
use modular_monolith.Session.{World, M}
use modular_monolith.Http.{Outcome, Serve, done, refused, refuse_with, with_body, answer}
use modular_monolith.Members.{resolve_identity}
use modular_monolith.Authflow.User.{SessionUser}
use modular_monolith.Invitations.{create_invitation, accept_invitation}

pub record CreateRequest : Type 0 where
  pub email : String
  pub role : String

pub record CreatedInvitation : Type 0 where
  pub token : String
  pub invite_url : String

abbrev pub created_invitation : Invitation → CreatedInvitation
created_invitation i = record { token = i.token; invite_url = joined "/invite/" i.token }

abbrev pub create_error : Error → Outcome CreatedInvitation
create_error e =
    if errors_is e invalid_role
    then refused 400 "invalid role"
    else refused 500 "failed to create invitation"

abbrev create_in :
    M String → Result CreateRequest → Option String → World → Outcome CreatedInvitation × World
create_in generate body none w = refuse_with 400 "organization context required" w
create_in generate body (some organization_id) w =
    if organization_id == ""
    then refuse_with 400 "organization context required" w
    else with_body body
        (λ req v.
          if req.email == "" || req.role == ""
          then refuse_with 400 "email and role are required" v
          else answer (λ i. done 201 (created_invitation i)) create_error
              (create_invitation generate organization_id req.email req.role v))
        w

-- `generate` is the source of tokens.
unfoldable pub create_invitation_handler : M String → Result CreateRequest → Serve CreatedInvitation
unfolding errors_is
create_invitation_handler generate body c = create_in generate body c.organization_id

abbrev pub accept_error : Error → Outcome String
accept_error e =
    if errors_is e invitation_not_found
    then refused 404 "invitation not found"
    else if errors_is e invitation_expired
    then refused 400 "invitation expired"
    else if errors_is e email_mismatch
    then refused 403 "email does not match invitation"
    else if errors_is e already_accepted
    then refused 409 "invitation already accepted"
    else if errors_is e user_already_exists
    then refused 409 "invitation already accepted"
    else refused 500 "failed to accept invitation"

abbrev accept_as : String → SessionUser → Result Identity × World → Outcome String × World
accept_as token user (err e, w) = refuse_with 500 "failed to resolve identity" w
accept_as token user (ok i, w) =
    answer (λ (inv : Invitation). done 200 inv.organization_id) accept_error
      (accept_invitation true token i.id user.email w)

-- The body is the decoded `token`; the service is set up as the router does.
unfoldable pub accept_invitation_handler :
    Result SessionUser → Result String → World → Outcome String × World
unfolding errors_is
accept_invitation_handler (err e) body w = refuse_with 401 "not authenticated" w
accept_invitation_handler (ok user) body w =
    with_body body
      (λ token v.
        if token == ""
        then refuse_with 400 "token is required" v
        else accept_as token user (resolve_identity user.subject v))
      w
