-- ===== src/Billing/Webhook.antt =====
-- What `ProcessWebhookEvent` (service.go) does with a verified event of the payment provider.
use modular_monolith.Prelude.{
  String, ◌==◌, ◌≡◌, refl, ◌≢◌, ◌⊎◌, inl, inr, true, List, [], ◌∷◌, Option, none, some, arith,
  eq_refl, find, find-append_of_none, find-eq-some, if◌then◌else◌, Bool-cases, sym, ◌∙◌, subst,
}
use modular_monolith.Failure.{Result, ok}
use modular_monolith.Tables.{Db, Subscription}
use modular_monolith.Session.{World, statement, pure, ◌>>◌}
use modular_monolith.Session.Atomic.{outcome_cases, tenant_start}
use modular_monolith.Session.Transactions.{
  KeepsDb, with_tenant_query-KeepsDb, Answers, with_tenant_query_ok, statement_ok,
}
use modular_monolith.Session.Keeps.{Keeps-statement, Keeps-unchanged, Keeps-if, Keeps-pure}
use modular_monolith.Audit.Effect.{IgnoresAudit, ignored_log-KeepsDb}
use modular_monolith.Session.Inversion.{>>=-eq-ok, tenant_statement-eq-ok}
use modular_monolith.Billing.Repository.{
  is_of, latest_subscription, new_subscription, reported, Report, select_subscription_sql,
  upsert_row, upsert_subscription_sql, get_subscription, upsert_subscription_by_provider,
}
use modular_monolith.Billing.Service.{
  attempt, has_status, log_audit, log_lifecycle, lifecycle_action, apply_report,
  process_webhook_event,
}
use modular_monolith.Billing.Unique.{HasOneEach, latest_subscription-find, find-map}
use modular_monolith.Billing.Invariant.{any_of_find, same_organization}

-- The stored subscription of the organization says what the report says.
pub record Reflects (organization_id : String) (r : Report) (rows : List Subscription)
    : Type 0 where
  pub subscription : Subscription
  pub stored : find (is_of organization_id) rows ≡ some subscription
  pub plan : subscription.plan ≡ r.plan
  pub status : subscription.status ≡ r.status
  pub period_end : subscription.current_period_end ≡ r.current_period_end
  pub customer : subscription.provider_customer_id ≡ some r.provider_customer_id
  pub provider_id : subscription.provider_subscription_id ≡ some r.provider_subscription_id

module _ (organization_id : String) (r : Report) where
  upsert_row-Reflects :
      (provider : String) (w w' : World) (found : Option Subscription)
      → find (is_of organization_id) w.db.subscriptions ≡ found
      → upsert_row organization_id provider r found w ≡ (ok tt, w')
      → Reflects organization_id r w'.db.subscriptions
  unfolding upsert_row
  upsert_row-Reflects provider w w' none missing h =
      let s =
        new_subscription w organization_id provider (some r.provider_customer_id)
          (some r.provider_subscription_id) r.plan r.status r.current_period_end in
      record {
        subscription = s;
        stored = ground (
          arith,
          h,
          find-append_of_none (is_of organization_id) w.db.subscriptions (s ∷ [])
              (any_of_find organization_id w.db.subscriptions missing),
          eq_refl organization_id,
        );
        plan = refl;
        status = refl;
        period_end = refl;
        customer = refl;
        provider_id = refl;
      }
  upsert_row-Reflects provider w w' (some old) found h = record {
    subscription = reported w r old;
    stored = ground (
      arith,
      h,
      find-map (λ (s : Subscription). if is_of organization_id s then reported w r s else s)
          (λ s. same_organization (is_of organization_id s) s (reported w r s) refl) organization_id
          w.db.subscriptions found,
      (find-eq-some (is_of organization_id) w.db.subscriptions found).1,
    );
    plan = refl;
    status = refl;
    period_end = refl;
    customer = refl;
    provider_id = refl;
  }

  upsert-Reflects :
      (provider : String) (w w' : World)
      → upsert_subscription_by_provider organization_id provider r w ≡ (ok tt, w')
      → Reflects organization_id r w'.db.subscriptions
  unfolding upsert_subscription_by_provider upsert_subscription_sql
  upsert-Reflects provider w w' h =
      let t =
        tenant_statement-eq-ok organization_id w
          (upsert_subscription_sql organization_id provider r) h in
      subst (λ (db : Db). Reflects organization_id r db.subscriptions) (sym t.db)
        (upsert_row-Reflects provider _ t.final _ refl t.ran)

-- Reading leaves the database alone.
pub get_subscription-db :
    (organization_id : String) (w : World) → (get_subscription organization_id w).1.db ≡ w.db
unfolding get_subscription select_subscription_sql
get_subscription-db organization_id w =
    (with_tenant_query-KeepsDb (λ db. db ≡ w.db) _
        (Keeps-statement _ (Keeps-unchanged (select_subscription_sql organization_id) (λ v. refl)))
        organization_id).at
      w refl

pub get_subscription-eq-ok :
    (organization_id : String) (w w' : World) (found : Option Subscription)
    → get_subscription organization_id w ≡ (ok found, w')
    → found ≡ latest_subscription organization_id w.db.subscriptions
unfolding get_subscription select_subscription_sql
get_subscription-eq-ok organization_id w w' found h =
    let t = tenant_statement-eq-ok organization_id w (select_subscription_sql organization_id) h in
    ground (arith, t.ran)

-- While the connection answers, the subscription is read.
pub get_subscription-Answers :
    (organization_id : String) (w : World)
    → Answers w
    → organization_id ≢ ""
    → get_subscription organization_id w
      ≡ (ok (latest_subscription organization_id w.db.subscriptions), w)
unfolding get_subscription select_subscription_sql
get_subscription-Answers organization_id w q named =
    let start = tenant_start organization_id w [] in
    let read = select_subscription_sql organization_id in
    let ran =
      with_tenant_query_ok organization_id (statement read) w {final = start} q refl named
        (statement_ok read start refl) in
    ground (arith, ran, q)

-- What `existing, _ := GetSubscription(..)` gives: nil, or what is stored.
pub attempt_cases :
    (organization_id : String) (w : World)
    → HasOneEach w.db.subscriptions
    → (found : Option Subscription) × (w' : World) × (attempt (get_subscription organization_id) w
        ≡ (ok found, w'))
      × (w'.db ≡ w.db)
      × ((found ≡ none) ⊎ (found ≡ find (is_of organization_id) w.db.subscriptions))
attempt_cases organization_id w u = elim (outcome_cases (get_subscription organization_id w)) [
  | inl (found, w', e) ↦ (
    found,
    w',
    ground (arith, e),
    ground (arith, e, get_subscription-db organization_id w),
    inr (
        get_subscription-eq-ok organization_id w w' found e
        ∙ latest_subscription-find organization_id w.db.subscriptions u),
  )
  | inr (x, w', e) ↦ (
    none,
    w',
    ground (arith, e),
    ground (arith, e, get_subscription-db organization_id w),
    inl refl,
  )
]

-- The audit of an event never fails, and touches the audit log only.
pub log_lifecycle-KeepsDb :
    (P : Db → Type 0)
    → IgnoresAudit P
    → (organization_id : String) (existing : Option Subscription) (r : Report)
    → KeepsDb P (log_lifecycle organization_id existing r)
unfolding log_lifecycle log_audit
log_lifecycle-KeepsDb P ignores organization_id existing r =
    Keeps-if (lifecycle_action r.status == "") (pure tt) _ (Keeps-pure tt)
      (ignored_log-KeepsDb P ignores _)

pub log_lifecycle-ok :
    (organization_id : String) (existing : Option Subscription) (r : Report) (w : World)
    → (log_lifecycle organization_id existing r w).0 ≡ ok tt
unfolding log_lifecycle log_audit
log_lifecycle-ok organization_id existing r w =
    elim (Bool-cases (lifecycle_action r.status == "")) [
      | inl e ↦ ground (arith, e)
      | inr e ↦ ground (arith, e)
    ]

module _ (organization_id : String) (r : Report) where
  apply_report-ok :
      (existing : Option Subscription) (w w' : World)
      → apply_report organization_id r existing w ≡ (ok tt, w')
      → ((has_status existing r.status ≡ true) × (w'.db ≡ w.db))
        ⊎ Reflects organization_id r w'.db.subscriptions
  unfolding apply_report
  apply_report-ok existing w w' h = elim (Bool-cases (has_status existing r.status)) [
    | inl same ↦ inl (same, ground (arith, same, h))
    | inr new ↦
        let upsert = upsert_subscription_by_provider organization_id "dodo" r in
        let write_log = log_lifecycle organization_id existing r in
        let ran : (upsert >> write_log) w ≡ (ok tt, w') = ground (arith, new, h) in
        let (_, v, stored, logged) = >>=-eq-ok upsert (λ _. write_log) w ran in
        inr (
          subst (λ (x : Result (Unit {0}) × World). Reflects organization_id r x.1.db.subscriptions)
            logged
            ((log_lifecycle-KeepsDb (λ db. Reflects organization_id r db.subscriptions)
                (λ db logs k. k) organization_id existing r).at
              v (upsert-Reflects organization_id r "dodo" w v stored)))
  ]

  -- Of an event that is acknowledged, with at most one subscription for each organization
  -- before, either the stored subscription already had the status of the
  -- event, and nothing changed; or the stored subscription now says all that the event says.
  pub process_webhook_event-Reflects :
      (w w' : World)
      → HasOneEach w.db.subscriptions
      → process_webhook_event organization_id r w ≡ (ok tt, w')
      → ((has_status (find (is_of organization_id) w.db.subscriptions) r.status ≡ true)
          × (w'.db ≡ w.db))
        ⊎ Reflects organization_id r w'.db.subscriptions
  unfolding process_webhook_event
  process_webhook_event-Reflects w w' u h =
      let (found, v, read, same, known) = attempt_cases organization_id w u in
      let ran : apply_report organization_id r found v ≡ (ok tt, w') = ground (arith, h, read) in
      elim (apply_report-ok found v w' ran) [
        | inr new ↦ inr new
        | inl (equal, kept) ↦ inl (ground (arith, known, equal), kept ∙ same)
      ]
