-- ===== src/Tests/Web.antt =====
-- The theorems on webhook deliveries, routes, rate limits, keys and the configuration at concrete
-- inputs.
use modular_monolith.Prelude.{
  ℕ, String, ◌≡◌, ◌↔◌, ◌⊎◌, refl, inl, inr, Bool, true, false, List, [], ◌∷◌, Option, some, none,
  arith, ltb, if◌then◌else◌,
}
use modular_monolith.Prelude.Int.{pos, leb_ℤ}
use modular_monolith.Failure.{Result, ok, err, message}
use modular_monolith.Session.{World}
use modular_monolith.Authflow.Cookies.{unix}
use modular_monolith.Payments.{WebhookHeaders, Provider, Signing, verify_webhook_signature}
use modular_monolith.Payments.Signatures.{IsGenuine, verify_webhook_signature_iff}
use modular_monolith.Billing.Deliveries.{WebhookPayload, WebhookData, read, handle_webhook}
use modular_monolith.Billing.Deliveries.Accepted.{Rejected, Acknowledged, handle_webhook_cases}
use modular_monolith.Access.{refuse}
use modular_monolith.Access.Protection.{Refused}
use modular_monolith.Routes.{permitted, guarded}
use modular_monolith.Routes.Guards.{Reached, guarded_cases}
use modular_monolith.Rbac.Handler.{CreateRoleRequest, create_role_handler}
use modular_monolith.Rbac.Handler.Guarded.{Posted, post_roles-Posted}
use modular_monolith.Http.{serve, done}
use modular_monolith.Tests.World.{start, alice_session}

abbrev signing : Signing
signing = record { decode = λ s. ok (5 ∷ []); encode = λ b. "mac"; mac = λ key text. key }

abbrev dodo : Provider
dodo = record { api_key = "k"; webhook_secret = "whsec_x"; base_url = "https://dodo" }

abbrev headers : WebhookHeaders
headers = record { id = "e1"; signature = "v0,old v1,mac"; timestamp = "0" }

verify_webhook_signature_iff_example :
    (verify_webhook_signature signing dodo 100 "{}" headers ≡ ok tt)
    ↔ IsGenuine signing dodo 100 "{}" headers
verify_webhook_signature_iff_example =
    verify_webhook_signature_iff signing dodo 100 "{}" headers (omega arith)

abbrev paid : WebhookPayload
paid = record {
  business_id = "b";
  type = "subscription.active";
  timestamp = "t";
  payload = record {
    subscription_id = "sub-acme";
    customer_id = "c-acme";
    product_id = "pro";
    status = "active";
    current_period_end = some 50;
    metadata = ("organization_id", "acme") ∷ [];
  };
}

handle_webhook_cases_example :
    Rejected start (handle_webhook signing dodo (λ body. ok paid) (read "{}") headers start)
    ⊎ Acknowledged signing dodo
        (λ body. ok paid)
        (read "{}")
        headers
        start
        (handle_webhook signing dodo (λ body. ok paid) (read "{}") headers start)
unfolding unix
handle_webhook_cases_example =
    handle_webhook_cases signing dodo (λ body. ok paid) headers start (refl, tt) (omega arith)
      (read "{}")

-- The trial became a subscription.
paid_is_acknowledged :
    (handle_webhook signing dodo (λ body. ok paid) (read "{}") headers start).0 ≡ done 200 true
unfolding handle_webhook verify_webhook_signature modular_monolith.Prelude.Numerals.parse_int
    modular_monolith.Payments.is_stale unix modular_monolith.Prelude.split_at
    modular_monolith.Payments.matches modular_monolith.Billing.Deliveries.deliver
    modular_monolith.Billing.Service.process_webhook_event
    modular_monolith.Billing.Repository.get_subscription modular_monolith.Session.with_tenant_query
    modular_monolith.Session.round_trip modular_monolith.Session.in_transaction
    modular_monolith.Session.set_tenant_context
    modular_monolith.Billing.Repository.select_subscription_sql
    modular_monolith.Billing.Service.apply_report
    modular_monolith.Billing.Repository.latest_subscription
    modular_monolith.Audit.insert_audit_log_sql modular_monolith.Audit.log
    modular_monolith.Billing.Deliveries.text_at modular_monolith.Billing.Repository.upsert_row
    modular_monolith.Billing.Repository.upsert_subscription_by_provider
    modular_monolith.Billing.Repository.upsert_subscription_sql
    modular_monolith.Billing.Service.lifecycle_action modular_monolith.Billing.Service.log_audit
    modular_monolith.Billing.Service.log_lifecycle modular_monolith.Prelude.Int.◌-ℤ◌
    modular_monolith.Prelude.Int64.int64 modular_monolith.Prelude.sort_by
    modular_monolith.Prelude.cut_at modular_monolith.Prelude.drop_chars
    modular_monolith.Prelude.has_prefix
paid_is_acknowledged = refl

guarded_cases_example :
    Refused start
      (guarded (permitted "settings.write") (ok alice_session) true (λ c. refuse 200 "hello") start)
    ⊎ Reached
        (ok alice_session)
        true
        (λ c. refuse 200 "hello")
        start
        (guarded
          (permitted "settings.write")
          (ok alice_session)
          true
          (λ c. refuse 200 "hello")
          start)
unfolding modular_monolith.Routes.needs_member
guarded_cases_example =
    guarded_cases (ok alice_session) true (λ c. refuse 200 "hello") start
      (permitted "settings.write") refl

abbrev new_role_request : CreateRoleRequest
new_role_request = record { name = " auditor "; permissions = "settings.write" ∷ [] }

post_roles-Posted_example : Posted (ok alice_session) (ok new_role_request) start (
    guarded
      (permitted "settings.write")
      (ok alice_session)
      true
      (serve (create_role_handler (ok new_role_request)))
      start)
unfolding guarded modular_monolith.Access.protected modular_monolith.Access.session_identity
    modular_monolith.Access.resolve_membership modular_monolith.Members.get_default_membership
    modular_monolith.Session.round_trip modular_monolith.Members.select_membership_sql
    modular_monolith.Access.tenant_context modular_monolith.Access.require_permission
    modular_monolith.Rbac.Repository.user_has_permission modular_monolith.Session.with_tenant_query
    modular_monolith.Session.in_transaction modular_monolith.Session.set_tenant_context
    modular_monolith.Rbac.Queries.user_has_permission_sql create_role_handler
    modular_monolith.Prelude.trim_space modular_monolith.Rbac.Service.create_role_logged
    modular_monolith.Audit.insert_audit_log_sql modular_monolith.Audit.log
    modular_monolith.Failure.Sentinel-discrete modular_monolith.Failure.errors_is
    modular_monolith.Failure.is_no_rows modular_monolith.Prelude.sort_by
    modular_monolith.Rbac.Queries.permissions_of modular_monolith.Rbac.Queries.select_role_sql
    modular_monolith.Rbac.Queries.user_has_permission_in
    modular_monolith.Rbac.Repository.assign_role_permissions
    modular_monolith.Rbac.Repository.create_role modular_monolith.Rbac.Repository.create_role_tx
    modular_monolith.Rbac.Repository.get_role modular_monolith.Rbac.Repository.insert_role
    modular_monolith.Rbac.Repository.map_constraint_error
    modular_monolith.Rbac.Statements.grant_named_sql modular_monolith.Rbac.Statements.insert_grants
    modular_monolith.Rbac.Statements.insert_role_sql modular_monolith.Rbac.Statements.unique_from
    modular_monolith.Rbac.Statements.unique_strings
post_roles-Posted_example =
    post_roles-Posted (ok alice_session) true (ok new_role_request) start refl
