-- ===== src/Billing/Service.antt =====
-- internal/modules/billing/service.go and subscription_checker.go.
use modular_monolith.Prelude.{
  ℕ, String, ◌==◌, Bool, false, ◌||◌, List, [], ◌∷◌, Option, none, some, if◌then◌else◌, trim_space,
}
use modular_monolith.Failure.{Result, ok, err, sentinel, message, invalid_subscription}
use modular_monolith.Tables.{Subscription}
use modular_monolith.Session.{World, M, pure, fail, ◌>>=◌, ◌>>◌}
use modular_monolith.Audit.{log, ignore_error}
use modular_monolith.Billing.Repository.{
  Report, get_subscription, create_subscription, update_subscription,
  upsert_subscription_by_provider,
}

-- `s.logAudit(..)`: best effort; the service is built with an audit logger.
unfoldable pub log_audit : String → String → String → List (String × String) → M (Unit {0})
log_audit organization_id action entity_id metadata = ignore_error (
    log (record {
      organization_id = organization_id;
      user_id = "";
      action = action;
      entity_type = "subscription";
      entity_id = entity_id;
      metadata = some metadata;
    }))

-- `Service.CreateCheckoutSession`; `checkout` is the provider's method, none if there is no provider.
unfoldable pub create_checkout_session :
    Option (String → String → M String) → String → String → M String
create_checkout_session checkout organization_id plan =
    let organization_id = trim_space organization_id in
    let plan = trim_space plan in
    if organization_id == "" || plan == ""
    then fail (sentinel invalid_subscription)
    else elim checkout [
      | none ↦ fail (message "checkout provider is not configured")
      | some create ↦ do
        url ← create organization_id plan
        log_audit organization_id "checkout.created" ""
            (("organization_id", organization_id) ∷ ("plan", plan) ∷ [])
        pure url
    ]

-- `Service.CreateSubscription`
unfoldable pub subscribe : String → String → String → String → M Subscription
subscribe organization_id provider plan status =
    let provider = trim_space provider in
    let plan = trim_space plan in
    let status = trim_space status in
    if provider == "" || plan == "" || status == ""
    then fail (sentinel invalid_subscription)
    else do
      s ← create_subscription organization_id provider plan status
      log_audit s.organization_id "subscription.created" s.id (
          ("organization_id", organization_id)
          ∷ ("provider", provider)
          ∷ ("plan", plan)
          ∷ ("status", status)
          ∷ [])
      pure s

-- `existing, _ := GetSubscription(..)`: an error counts as no subscription.
abbrev pub or_none : {A : Type 0} → Result (Option A) × World → Result (Option A) × World
or_none (ok o, w) = (ok o, w)
or_none (err e, w) = (ok none, w)

abbrev pub attempt : {A : Type 0} → M (Option A) → M (Option A)
attempt m w = or_none (m w)

abbrev pub status_of : Option Subscription → String
status_of none = ""
status_of (some s) = s.status

-- `Service.UpdateSubscription`
unfoldable pub change_subscription : String → String → String → String → Option ℕ → M Subscription
change_subscription id organization_id plan status period_end =
    let id = trim_space id in
    let plan = trim_space plan in
    let status = trim_space status in
    if id == "" || plan == "" || status == "" then fail (sentinel invalid_subscription) else do
      existing ← attempt (get_subscription organization_id)
      s ← update_subscription id organization_id plan status period_end
      log_audit organization_id "subscription.updated" id (
          ("organization_id", organization_id)
          ∷ ("previous_status", status_of existing)
          ∷ ("new_status", status)
          ∷ ("plan", plan)
          ∷ [])
      pure s

unfoldable pub lifecycle_action : String → String
lifecycle_action status =
    if status == "active"
    then "subscription.activated"
    else if status == "past_due"
    then "subscription.past_due"
    else if status == "cancelled"
    then "subscription.cancelled"
    else ""

-- The stored subscription is there and has the status of the event.
abbrev pub has_status : Option Subscription → String → Bool
has_status none status = false
has_status (some s) status = s.status == status

-- `if action := lifecycleAction(status); action != "" { s.logAudit(..) }`
unfoldable pub log_lifecycle : String → Option Subscription → Report → M (Unit {0})
log_lifecycle organization_id existing r =
    if lifecycle_action r.status == ""
    then pure tt
    else log_audit organization_id (lifecycle_action r.status) r.provider_subscription_id (
        ("organization_id", organization_id)
        ∷ ("previous_status", status_of existing)
        ∷ ("new_status", r.status)
        ∷ ("provider_subscription_id", r.provider_subscription_id)
        ∷ [])

-- The rest of `ProcessWebhookEvent`, from the comparison of the statuses on.
unfoldable pub apply_report : String → Report → Option Subscription → M (Unit {0})
apply_report organization_id r existing = if has_status existing r.status then pure tt else do
  upsert_subscription_by_provider organization_id "dodo" r
  log_lifecycle organization_id existing r

-- `Service.ProcessWebhookEvent`
unfoldable pub process_webhook_event : String → Report → M (Unit {0})
process_webhook_event organization_id r =
    if organization_id == "" || r.status == ""
    then fail (sentinel invalid_subscription)
    else attempt (get_subscription organization_id) >>= apply_report organization_id r

-- `subscriptionChecker`
unfoldable pub has_active_subscription : String → M Bool
has_active_subscription organization_id = do
  s ← get_subscription organization_id
  pure (has_status s "active" || has_status s "trialing")

abbrev pub has_plan : Option Subscription → String → Bool
has_plan none plan = false
has_plan (some s) plan = s.plan == plan

unfoldable pub is_plan : String → String → M Bool
is_plan organization_id plan = do s ← get_subscription organization_id; pure (has_plan s plan)
