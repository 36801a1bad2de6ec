-- ===== src/Invitations.antt =====
-- internal/modules/invitations over the table invitations (migrations/015_invitations.sql), with the
-- adapters of internal/router/routes.go.
pub mod Handler
pub mod Acceptance
pub mod Creation
use modular_monolith.Prelude.{
  ℕ, suc, ◌+◌, ltb, String, ◌==◌, Bool, true, false, not, List, [], ◌∷◌, ◌++◌, Option, none, some,
  if◌then◌else◌, find, any, map,
}
use modular_monolith.Failure.{
  Result, ok, err, sentinel, wrap, invalid_role, invitation_not_found, already_accepted,
  invitation_expired, email_mismatch,
}
use modular_monolith.Tables.{Invitation}
use modular_monolith.Session.{
  World, M, pure, fail, map_error, ◌>>=◌, ◌>>◌, statement, violation, with_tenant_query,
}
use modular_monolith.Audit.{log, ignore_error}
use modular_monolith.Members.{create_membership, create_membership_with_role}
use modular_monolith.Rbac.Statements.{contains}
use modular_monolith.Rbac.Repository.{list_roles}
use modular_monolith.Onboarding.{assign_first}

abbrev pub valid_roles : List String
valid_roles = "owner" ∷ "admin" ∷ "member" ∷ "viewer" ∷ []

abbrev pub new_invitation : World → String → String → String → String → ℕ → Invitation
new_invitation w organization_id email role_name token expires_at = record {
  id = w.uuid w.drawn;
  organization_id = organization_id;
  email = email;
  role_name = role_name;
  token = token;
  expires_at = expires_at;
  accepted_at = none;
  created_at = w.now;
  updated_at = w.now;
}

abbrev pub has_token : String → Invitation → Bool
has_token token i = i.token == token

-- INSERT INTO invitations .. RETURNING
unfoldable pub insert_invitation_sql : String → String → String → String → ℕ → M Invitation
insert_invitation_sql organization_id email role_name token expires_at w =
    let i = new_invitation w organization_id email role_name token expires_at in
    if any (has_token token) w.db.invitations
    then violation "23505" "invitations_token_key" w
    else (
      ok i,
      record w {
        db = record (w.db) { invitations = w.db.invitations ++ i ∷ [] };
        drawn = suc w.drawn;
      },
    )

-- `Repository.Create` with the token that `generateToken` drew.
unfoldable pub create : String → String → String → ℕ → String → M Invitation
create organization_id email role_name expires_at token =
    with_tenant_query organization_id
      (statement (insert_invitation_sql organization_id email role_name token expires_at))

-- On the pool, with no tenant: no row is no error, the caller receives nil.
unfoldable pub select_invitation_sql : String → M (Option Invitation)
select_invitation_sql token w = (ok (find (has_token token) w.db.invitations), w)

unfoldable pub get_by_token : String → M (Option Invitation)
get_by_token token = statement (select_invitation_sql token)

abbrev pub accepted : World → Invitation → Invitation
accepted w i = record i { accepted_at = some w.now; updated_at = w.now }

unfoldable pub accept_invitation_sql : String → M (Unit {0})
accept_invitation_sql token w = (
  ok tt,
  record w {
    db = record (w.db) {
      invitations =
          map (λ (i : Invitation). if has_token token i then accepted w i else i) w.db.invitations;
    };
  },
)

unfoldable pub mark_accepted : String → M (Unit {0})
mark_accepted token = statement (accept_invitation_sql token)

-- `invitationsAuditAdapter.Log`; the service drops its error.
abbrev pub log_invitation : String → String → String → List (String × String) → M (Unit {0})
log_invitation organization_id action entity_id metadata = ignore_error (
    log (record {
      organization_id = organization_id;
      user_id = "";
      action = action;
      entity_type = "invitation";
      entity_id = entity_id;
      metadata = some metadata;
    }))

-- 7 days in nanoseconds
abbrev pub validity : ℕ
validity = 604800000000000

abbrev pub clock : M ℕ
clock w = (ok w.now, w)

-- `CreateInvitation`; `generate` is `generateToken`, the random source of the system.
unfoldable pub create_invitation : M String → String → String → String → M Invitation
create_invitation generate organization_id email role_name =
    if not (contains role_name valid_roles) then fail (sentinel invalid_role) else do
      now ← clock
      token ← generate
      i ← create organization_id email role_name (now + validity) token
      log_invitation organization_id "invitation_created" i.id
          (("email", email) ∷ ("role", role_name) ∷ [])
      pure i

-- `invitationsRoleAdapter.AssignRole`
unfoldable pub assign_role : String → String → String → M (Unit {0})
assign_role organization_id user_id role_name = do
  roles ← list_roles organization_id
  assign_first organization_id user_id role_name roles

-- The user and the role; `with_role` tells whether `UsersWithRole` is set, as the router does.
unfoldable pub create_member : Bool → Invitation → String → String → M String
create_member true i identity_id email = do
  u ←
      map_error (wrap "accept invitation: create user with role")
        (create_membership_with_role i.organization_id identity_id email i.role_name)
  pure u.id
create_member false i identity_id email = do
  u ←
      map_error (wrap "accept invitation: create user")
        (create_membership i.organization_id identity_id email)
  map_error (wrap "accept invitation: assign role") (assign_role i.organization_id u.id i.role_name)
  pure u.id

abbrev pub is_accepted : Invitation → Bool
is_accepted i = elim i.accepted_at [ none ↦ false | some _ ↦ true ]

-- The rest of `AcceptInvitation` for a pending invitation of this email.
unfoldable pub join : Bool → String → String → String → Invitation → M Invitation
join with_role token identity_id email i = do
  user_id ← create_member with_role i identity_id email
  map_error (wrap "accept invitation: mark accepted") (mark_accepted token)
  log_invitation i.organization_id "invitation_accepted" i.id
      (("email", email) ∷ ("role", i.role_name) ∷ ("user_id", user_id) ∷ [])
  pure i

unfoldable pub accept_found : Bool → String → String → String → Option Invitation → M Invitation
accept_found with_role token identity_id email none = fail (sentinel invitation_not_found)
accept_found with_role token identity_id email (some i) =
    if is_accepted i then fail (sentinel already_accepted) else do
      now ← clock
      if ltb i.expires_at now
          then fail (sentinel invitation_expired)
          else if not (i.email == email)
          then fail (sentinel email_mismatch)
          else join with_role token identity_id email i

unfoldable pub accept_invitation : Bool → String → String → String → M Invitation
accept_invitation with_role token identity_id email =
    get_by_token token >>= accept_found with_role token identity_id email

unfoldable pub found_or_fail : Option Invitation → M Invitation
found_or_fail none = fail (sentinel invitation_not_found)
found_or_fail (some i) = pure i

unfoldable pub get_invitation : String → M Invitation
get_invitation token = get_by_token token >>= found_or_fail
