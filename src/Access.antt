-- ===== src/Access.antt =====
-- The way of a request to a protected handler: internal/middleware/session_identity.go,
-- resolve_membership.go and tenant.go, internal/modules/rbac/middleware.go, and the values of
-- internal/context. What `GetSession` returns for the request is an argument.
pub mod Protection
pub mod Subscribed
use modular_monolith.Prelude.{
  ℕ, String, ◌==◌, Bool, true, false, not, ◌&&◌, Option, none, some, if◌then◌else◌,
}
use modular_monolith.Failure.{Error, Result, ok, err}
use modular_monolith.Authflow.User.{SessionUser}
use modular_monolith.Session.{World, M}
use modular_monolith.Members.{Membership, get_default_membership}
use modular_monolith.Rbac.Repository.{user_has_permission}

-- internal/context/identity.go
pub record IdentityContext : Type 0 where
  pub identity_id : String
  pub provider_id : String
  pub email : String
  pub name : String

-- internal/context/auth.go
pub record AuthenticatedUser : Type 0 where
  pub user_id : String
  pub organization_id : String
  pub email : String

-- What the request's context carries.
pub record Context : Type 0 where
  pub identity : Option IdentityContext
  pub membership : Option Membership
  pub user : Option AuthenticatedUser
  pub organization_id : Option String

pub record Response : Type 0 where
  pub status : ℕ
  pub message : String

-- A handler answers, and may change the world.
abbrev pub Handler : Type 0
Handler = Context → World → Response × World

abbrev pub refuse : ℕ → String → World → Response × World
refuse status message w = (record { status = status; message = message }, w)

unfoldable pub session_identity : Result SessionUser → Handler → Handler
session_identity (err e) next c = refuse 401 "not authenticated"
session_identity (ok s) next c =
    if s.identity_id == ""
    then refuse 401 "not authenticated"
    else next (record c {
      identity = some (record {
        identity_id = s.identity_id;
        provider_id = s.subject;
        email = s.email;
        name = s.name;
      });
    })

-- `SetMembership` and `SetAuthenticatedUser`
abbrev pub with_membership : IdentityContext → Context → Membership → Context
with_membership i c m = record c {
  membership = some m;
  user =
      some (record {
        user_id = m.membership_id;
        organization_id = m.organization_id;
        email = i.email;
      });
}

-- A membership that cannot be resolved is no error here.
abbrev pub resumed :
    IdentityContext → Handler → Context → Result Membership × World → Response × World
resumed i next c (ok m, w) = next (with_membership i c m) w
resumed i next c (err e, w) = next c w

abbrev pub resolve_for : Handler → Context → Option IdentityContext → World → Response × World
resolve_for next c none w = next c w
resolve_for next c (some i) w =
    if not (i.identity_id == "")
    then resumed i next c (get_default_membership i.identity_id w)
    else next c w

unfoldable pub resolve_membership : Handler → Handler
resolve_membership next c = resolve_for next c c.identity

abbrev pub organization_of_user : Option AuthenticatedUser → String
organization_of_user none = ""
organization_of_user (some u) = u.organization_id

abbrev pub organization_of : Option Membership → Option AuthenticatedUser → String
organization_of none u = organization_of_user u
organization_of (some m) u =
    if not (m.organization_id == "") then m.organization_id else organization_of_user u

unfoldable pub tenant_context : Handler → Handler
tenant_context next c =
    let organization_id = organization_of c.membership c.user in
    if organization_id == ""
    then refuse 500 "organization context missing"
    else next (record c { organization_id = some organization_id })

abbrev pub id_of_user : Option AuthenticatedUser → String
id_of_user none = ""
id_of_user (some u) = u.user_id

abbrev pub id_of : Option Membership → Option AuthenticatedUser → String
id_of none u = id_of_user u
id_of (some m) u = if not (m.membership_id == "") then m.membership_id else id_of_user u

abbrev pub decided : Handler → Context → Result Bool × World → Response × World
decided next c (err e, w) = refuse 500 "failed to check permission" w
decided next c (ok false, w) = refuse 403 "permission denied" w
decided next c (ok true, w) = next c w

abbrev pub require_in : String → Handler → Context → Option String → World → Response × World
require_in permission next c none w = refuse 500 "organization context missing" w
require_in permission next c (some organization_id) w =
    let membership_id = id_of c.membership c.user in
    if membership_id == ""
    then refuse 500 "user context missing" w
    else decided next c (user_has_permission organization_id membership_id permission w)

unfoldable pub require_permission : String → Handler → Handler
require_permission permission next c = require_in permission next c c.organization_id

abbrev pub no_context : Context
no_context = record { identity = none; membership = none; user = none; organization_id = none }

-- A route of the protected group that requires a permission, in the order of registerRoutes.
unfoldable pub protected : Result SessionUser → String → Handler → World → Response × World
protected session permission next =
    session_identity session
      (resolve_membership (tenant_context (require_permission permission next))) no_context
