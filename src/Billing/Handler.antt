-- ===== src/Billing/Handler.antt =====
-- internal/modules/billing/handler.go, billing_api_handler.go, dto.go and billing_api_dto.go.
use modular_monolith.Prelude.{ℕ, String, List, Option, none, some, if◌then◌else◌}
use modular_monolith.Prelude.Int.{ℤ}
use modular_monolith.Failure.{
  Error, Result, errors_is, invalid_subscription, subscription_already_exists,
  subscription_not_found,
}
use modular_monolith.Tables.{Subscription}
use modular_monolith.Session.{M, pure, ◌>>=◌}
use modular_monolith.Http.{Outcome, Serve, done, refused, in_organization, with_body, answer}
use modular_monolith.Billing.Repository.{get_subscription}
use modular_monolith.Billing.Service.{create_checkout_session, subscribe, change_subscription}
use modular_monolith.Usage.{get_value}
use modular_monolith.Entitlements.{Entitlement, get_entitlements}

pub record CreateSubscriptionRequest : Type 0 where
  pub provider : String
  pub plan : String
  pub status : String

pub record UpdateSubscriptionRequest : Type 0 where
  pub plan : String
  pub status : String
  pub current_period_end : Option ℕ

-- `SubscriptionResponse` has the fields of the subscription; `nil` is encoded as null.
unfoldable pub get_billing : Serve (Option Subscription)
get_billing c = in_organization c.organization_id λ organization_id w.
    answer (λ s. done 200 s) (λ e. refused 500 "failed to get billing")
      (get_subscription organization_id w)

abbrev pub create_billing_error : Error → Outcome Subscription
create_billing_error e =
    if errors_is e invalid_subscription
    then refused 400 "provider, plan, and status are required"
    else if errors_is e subscription_already_exists
    then refused 409 "subscription already exists"
    else refused 500 "failed to create billing"

unfoldable pub create_billing : Result CreateSubscriptionRequest → Serve Subscription
unfolding errors_is
create_billing body c = in_organization c.organization_id λ organization_id. with_body body λ req w.
    answer (λ s. done 201 s) create_billing_error
      (subscribe organization_id req.provider req.plan req.status w)

abbrev pub create_checkout_error : Error → Outcome String
create_checkout_error e =
    if errors_is e invalid_subscription
    then refused 400 "plan is required"
    else refused 500 "failed to create checkout session"

-- `checkout` is the provider's method; the body is the decoded `plan`.
unfoldable pub create_checkout : Option (String → String → M String) → Result String → Serve String
unfolding errors_is
create_checkout checkout body c = in_organization c.organization_id λ organization_id.
    with_body body λ plan w.
      answer (λ url. done 200 url) create_checkout_error
        (create_checkout_session checkout organization_id plan w)

abbrev pub update_billing_error : Error → Outcome Subscription
update_billing_error e =
    if errors_is e invalid_subscription
    then refused 400 "plan and status are required"
    else if errors_is e subscription_not_found
    then refused 404 "subscription not found"
    else refused 500 "failed to update billing"

-- The first argument is the path's `id`.
unfoldable pub update_billing : String → Result UpdateSubscriptionRequest → Serve Subscription
unfolding errors_is
update_billing id body c = in_organization c.organization_id λ organization_id.
    with_body body λ req w.
      answer (λ s. done 200 s) update_billing_error
        (change_subscription id organization_id req.plan req.status req.current_period_end w)

pub record SubscriptionDetail : Type 0 where
  pub plan : String
  pub status : String
  pub provider : String
  pub current_period_end : Option ℕ

abbrev detail_of : Subscription → SubscriptionDetail
detail_of s = record {
  plan = s.plan;
  status = s.status;
  provider = s.provider;
  current_period_end = s.current_period_end;
}

abbrev detail? : Option Subscription → Option SubscriptionDetail
detail? none = none
detail? (some s) = some (detail_of s)

-- `BillingAPIHandler.GetSubscription`
unfoldable pub get_subscription_detail : Serve (Option SubscriptionDetail)
get_subscription_detail c = in_organization c.organization_id λ organization_id w.
    answer (λ s. done 200 (detail? s)) (λ e. refused 500 "failed to get subscription")
      (get_subscription organization_id w)

pub record UsageMetrics : Type 0 where
  pub users : ℤ
  pub documents : ℤ
  pub api_requests : ℤ
  pub storage : ℤ

unfoldable pub usage_metrics : String → M UsageMetrics
usage_metrics organization_id = do
  users ← get_value organization_id "users"
  documents ← get_value organization_id "documents"
  api_requests ← get_value organization_id "api_requests"
  storage ← get_value organization_id "storage"
  pure (record {
    users = users;
    documents = documents;
    api_requests = api_requests;
    storage = storage;
  })

-- `BillingAPIHandler.GetUsage`
unfoldable pub get_usage_metrics : Serve UsageMetrics
unfolding usage_metrics
get_usage_metrics c = in_organization c.organization_id λ organization_id w.
    answer (λ m. done 200 m) (λ e. refused 500 "failed to get usage")
      (usage_metrics organization_id w)

-- `BillingAPIHandler.GetEntitlements`; an `EntitlementItem` has the fields of the entitlement.
unfoldable pub get_entitlements_handler : Serve (List Entitlement)
get_entitlements_handler c = in_organization c.organization_id λ organization_id w.
    answer (λ l. done 200 l) (λ e. refused 500 "failed to get entitlements")
      (get_entitlements organization_id w)
