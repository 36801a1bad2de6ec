-- ===== src/Tests/Billing.antt =====
-- The theorems on subscriptions on the small database.
use modular_monolith.Prelude.{
  String, ◌==◌, ◌≡◌, refl, ◌≢◌, ◌⊎◌, true, List, [], ◌∷◌, some, none, arith, eq_iff, select, find,
}
use modular_monolith.Failure.{Error, Result, ok, err, no_rows}
use modular_monolith.Session.{World}
use modular_monolith.Billing.Repository.{is_of, Report}
use modular_monolith.Billing.Service.{has_status, process_webhook_event}
use modular_monolith.Billing.Unique.{HasOneEach}
use modular_monolith.Billing.Invariant.{
  creates, updates, upserts, step, run, step-subscriptions_isolated, run-HasOneEach,
}
use modular_monolith.Billing.Webhook.{Reflects, process_webhook_event-Reflects}
use modular_monolith.Billing.Idempotence.{
  process_webhook_event-idempotent, process_webhook_event-error,
}
use modular_monolith.Tests.World.{start}

abbrev paid : Report
paid = record {
  provider_subscription_id = "sub-acme";
  provider_customer_id = "c-acme";
  plan = "pro";
  status = "active";
  current_period_end = some 50;
}

process_webhook_event_example :
    ((has_status (find (is_of "acme") start.db.subscriptions) paid.status ≡ true)
      × ((process_webhook_event "acme" paid start).1.db ≡ start.db))
    ⊎ Reflects "acme" paid (process_webhook_event "acme" paid start).1.db.subscriptions
unfolding process_webhook_event modular_monolith.Billing.Repository.get_subscription
    modular_monolith.Session.with_tenant_query modular_monolith.Session.round_trip
    modular_monolith.Session.in_transaction modular_monolith.Session.set_tenant_context
    modular_monolith.Billing.Repository.select_subscription_sql
    modular_monolith.Billing.Service.apply_report
    modular_monolith.Billing.Repository.latest_subscription modular_monolith.Prelude.sort_by
    modular_monolith.Billing.Repository.upsert_subscription_by_provider
    modular_monolith.Billing.Repository.upsert_subscription_sql
    modular_monolith.Billing.Service.log_lifecycle modular_monolith.Billing.Service.lifecycle_action
    modular_monolith.Billing.Service.log_audit
process_webhook_event_example =
    process_webhook_event-Reflects "acme" paid start (process_webhook_event "acme" paid start).1
      (refl, tt) refl

process_webhook_event-idempotent_example :
    process_webhook_event "acme" paid (process_webhook_event "acme" paid start).1
    ≡ (ok tt, (process_webhook_event "acme" paid start).1)
unfolding process_webhook_event modular_monolith.Billing.Repository.get_subscription
    modular_monolith.Session.with_tenant_query modular_monolith.Session.round_trip
    modular_monolith.Session.in_transaction modular_monolith.Session.set_tenant_context
    modular_monolith.Billing.Repository.select_subscription_sql
    modular_monolith.Billing.Service.apply_report
    modular_monolith.Billing.Repository.latest_subscription modular_monolith.Prelude.sort_by
    modular_monolith.Billing.Repository.upsert_subscription_by_provider
    modular_monolith.Billing.Repository.upsert_subscription_sql
    modular_monolith.Billing.Service.log_lifecycle modular_monolith.Billing.Service.lifecycle_action
    modular_monolith.Billing.Service.log_audit modular_monolith.Audit.log
    modular_monolith.Audit.insert_audit_log_sql modular_monolith.Billing.Repository.upsert_row
process_webhook_event-idempotent_example =
    process_webhook_event-idempotent "acme" paid start (process_webhook_event "acme" paid start).1
      (refl, tt) refl refl

-- The subscription is read in four round trips; then the transaction of the upsert does not begin.
abbrev broken : World
broken = record start { replies = none ∷ none ∷ none ∷ none ∷ some no_rows ∷ [] }

process_webhook_event-error_example : (process_webhook_event "acme" paid broken).1.db ≡ broken.db
unfolding process_webhook_event modular_monolith.Billing.Repository.get_subscription
    modular_monolith.Session.with_tenant_query modular_monolith.Session.round_trip
    modular_monolith.Session.in_transaction modular_monolith.Session.set_tenant_context
    modular_monolith.Billing.Repository.select_subscription_sql
    modular_monolith.Billing.Service.apply_report
    modular_monolith.Billing.Repository.latest_subscription modular_monolith.Prelude.sort_by
    modular_monolith.Billing.Repository.upsert_subscription_by_provider
process_webhook_event-error_example =
    process_webhook_event-error "acme" paid broken (process_webhook_event "acme" paid broken).1
      {e = modular_monolith.Failure.wrap "begin tenant tx" no_rows} (refl, tt) refl

run-HasOneEach_example :
    HasOneEach
      (run
        (("acme", creates "dodo" "pro" "active")
          ∷ ("globex", creates "dodo" "pro" "active")
          ∷ ("acme", updates "s-acme" "free" "cancelled" none)
          ∷ ("globex", upserts "dodo" paid)
          ∷ [])
        start).db.subscriptions
run-HasOneEach_example =
    run-HasOneEach
      (("acme", creates "dodo" "pro" "active")
        ∷ ("globex", creates "dodo" "pro" "active")
        ∷ ("acme", updates "s-acme" "free" "cancelled" none)
        ∷ ("globex", upserts "dodo" paid)
        ∷ [])
      start (refl, tt)

step-subscriptions_isolated_example :
    select (is_of "acme") (step "globex" (creates "dodo" "pro" "active") start).db.subscriptions
    ≡ select (is_of "acme") start.db.subscriptions
step-subscriptions_isolated_example =
    step-subscriptions_isolated "globex" "acme" (ground (arith, eq_iff "globex" "acme"))
      (creates "dodo" "pro" "active") start
