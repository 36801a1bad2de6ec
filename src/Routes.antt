-- ===== src/Routes.antt =====
-- internal/router/routes.go: the table of routes, and the middleware around the handler of each.
pub mod Guards
use modular_monolith.Prelude.{
  String, Bool, true, false, List, [], ◌∷◌, ◌++◌, Option, none, some, if◌then◌else◌,
}
use modular_monolith.Failure.{Result}
use modular_monolith.Session.{World}
use modular_monolith.Authflow.User.{SessionUser}
use modular_monolith.Access.{
  Context, Response, Handler, refuse, session_identity, resolve_membership, tenant_context,
  no_context, protected,
}

-- What a route asks of the caller before its handler runs: nothing, a session, a membership, or a
-- permission.
pub data Guard : Type 0 where
  anyone signed_in member : Guard
  permitted : String → Guard

pub data Limit : Type 0 where
  unlimited public_limit authenticated_limit webhook_limit : Limit

pub record Route : Type 0 where
  pub method : String
  pub path : String
  pub guard : Guard
  pub limit : Limit
  pub handler : String

abbrev route : String → String → Guard → Limit → String → Route
route method path guard limit handler = record {
  method = method;
  path = path;
  guard = guard;
  limit = limit;
  handler = handler;
}

abbrev open_routes : List Route
open_routes =
    route "GET" "/auth/login" anyone public_limit "authHandler.Login"
    ∷ route "GET" "/auth/callback" anyone public_limit "authHandler.Callback"
    ∷ route "POST" "/auth/logout" anyone unlimited "authHandler.Logout"
    ∷ route "GET" "/auth/me" anyone unlimited "authHandler.Me"
    ∷ route "POST" "/organizations" anyone public_limit "organizationHandler.CreateOrganization"
    ∷ route "POST" "/onboarding" anyone public_limit "onboardingHandler.CompleteOnboarding"
    ∷ route "POST" "/invitations/accept" anyone public_limit "invitationsHandler.AcceptInvitation"
    ∷ route "GET" "/memberships" signed_in unlimited "membershipsHandler.ListMemberships"
    ∷ route "POST" "/billing/webhook" anyone webhook_limit "billingHandler.HandleWebhook"
    ∷ []

abbrev billing_read : String → String → Route
billing_read path handler = route "GET" path (permitted "billing.read") unlimited handler

abbrev protected_routes : List Route
protected_routes =
    route "POST" "/users" member unlimited "userHandler.RegisterUser"
    ∷ route "GET" "/roles" member unlimited "rbacHandler.ListRoles"
    ∷ route "POST" "/roles" (permitted "settings.write") authenticated_limit
        "rbacHandler.CreateRole"
    ∷ route "GET" "/permissions" member unlimited "rbacHandler.ListPermissions"
    ∷ billing_read "/billing" "billingHandler.GetBilling"
    ∷ billing_read "/billing/subscription" "billingAPIHandler.GetSubscription"
    ∷ billing_read "/billing/usage" "billingAPIHandler.GetUsage"
    ∷ billing_read "/billing/entitlements" "billingAPIHandler.GetEntitlements"
    ∷ route "POST" "/billing" (permitted "billing.write") unlimited "billingHandler.CreateBilling"
    ∷ route "POST" "/billing/checkout" (permitted "billing.write") authenticated_limit
        "billingHandler.CreateCheckout"
    ∷ route "PATCH" "/billing/{id}" (permitted "billing.write") unlimited
        "billingHandler.UpdateBilling"
    ∷ route "POST" "/users/{id}/roles" (permitted "settings.write") authenticated_limit
        "rbacHandler.AssignRoleToUser"
    ∷ route "GET" "/audit" (permitted "audit.read") unlimited "auditHandler.ListAuditLogs"
    ∷ route "GET" "/organizations/dashboard" member unlimited "dashboardHandler.Dashboard"
    ∷ route "GET" "/organizations/summary" member unlimited "dashboardHandler.Summary"
    ∷ route "GET" "/organizations/usage-summary" member unlimited "dashboardHandler.UsageSummary"
    ∷ route "POST" "/invitations" member unlimited "invitationsHandler.CreateInvitation"
    ∷ []

abbrev token_route : Bool → List Route
token_route development =
    if development then route "GET" "/token" anyone unlimited "users.GenerateToken" ∷ [] else []

-- The routes below /api/v1 whose handler is one of the program's.
unfoldable pub routes : Bool → List Route
routes development = token_route development ++ (open_routes ++ protected_routes)

-- The rate limit stands directly around the handler; the argument is what the limiter answers.
abbrev pub limited : Bool → Handler → Handler
limited allowed next c w = if allowed then next c w else refuse 429 "rate limit exceeded" w

-- A request to a route, for what `GetSession` returns and the limiter answers.
unfoldable pub guarded : Guard → Result SessionUser → Bool → Handler → World → Response × World
guarded anyone session allowed next = limited allowed next no_context
guarded signed_in session allowed next = session_identity session (limited allowed next) no_context
guarded member session allowed next =
    session_identity session (resolve_membership (tenant_context (limited allowed next))) no_context
guarded (permitted permission) session allowed next =
    protected session permission (limited allowed next)

-- The routes of the protected group.
unfoldable pub needs_member : Guard → Bool
needs_member anyone = false
needs_member signed_in = false
needs_member member = true
needs_member (permitted permission) = true
