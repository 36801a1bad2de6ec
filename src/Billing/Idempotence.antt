-- ===== src/Billing/Idempotence.antt =====
-- A webhook event that was acknowledged can be delivered again, and one that fails can be retried.
use modular_monolith.Prelude.{
  String, ◌==◌, ◌≡◌, inl, inr, true, Option, arith, eq_iff, find, ◌||◌, List, Bool-cases, sym, ◌∙◌,
  subst,
}
use modular_monolith.Failure.{Error, Result, ok, err}
use modular_monolith.Tables.{Db, Subscription}
use modular_monolith.Session.{World, statement, pure}
use modular_monolith.Session.Atomic.{outcome_cases}
use modular_monolith.Session.Transactions.{with_tenant_query-rolls_back, Answers}
use modular_monolith.Session.Keeps.{Keeps-if, Keeps-pure, Keeps-bind}
use modular_monolith.Billing.Repository.{
  is_of, Report, upsert_subscription_sql, upsert_subscription_by_provider,
}
use modular_monolith.Billing.Service.{has_status, apply_report, process_webhook_event}
use modular_monolith.Billing.Unique.{HasOneEach, latest_subscription-find}
use modular_monolith.Billing.Invariant.{step, upserts, step-HasOneEach}
use modular_monolith.Billing.Webhook.{
  Reflects, attempt_cases, get_subscription-Answers, log_lifecycle-KeepsDb, log_lifecycle-ok,
  process_webhook_event-Reflects,
}

module _ (organization_id : String) (r : Report) where
  apply_report-HasOneEach :
      (existing : Option Subscription) (w : World)
      → HasOneEach w.db.subscriptions
      → HasOneEach (apply_report organization_id r existing w).1.db.subscriptions
  unfolding apply_report step
  apply_report-HasOneEach existing =
      let P : Db → Type 0 = λ db. HasOneEach db.subscriptions in
      (Keeps-if {P = P} (has_status existing r.status) (pure tt) _ (Keeps-pure tt) (
        Keeps-bind (upsert_subscription_by_provider organization_id "dodo" r) _
          (record { at = step-HasOneEach organization_id (upserts "dodo" r) })
          (λ _. log_lifecycle-KeepsDb P (λ db logs k. k) organization_id existing r))).at

  process_webhook_event-HasOneEach :
      (w : World)
      → HasOneEach w.db.subscriptions
      → HasOneEach (process_webhook_event organization_id r w).1.db.subscriptions
  unfolding process_webhook_event
  process_webhook_event-HasOneEach w u =
      let (found, v, read, same, known) = attempt_cases organization_id w u in
      let kept =
        apply_report-HasOneEach found v
          (subst (λ (db : Db). HasOneEach db.subscriptions) (sym same) u) in
      ground (arith, read, kept, u)

  apply_report-error :
      (existing : Option Subscription) (w w' : World) {e : Error}
      → apply_report organization_id r existing w ≡ (err e, w')
      → w'.db ≡ w.db
  unfolding apply_report upsert_subscription_by_provider
  apply_report-error existing w w' {e} h = elim (Bool-cases (has_status existing r.status)) [
    | inl same ↦ absurd (ground (arith, same, h))
    | inr new ↦ elim (outcome_cases (upsert_subscription_by_provider organization_id "dodo" r w)) [
      | inl (a, v, ran) ↦
          absurd (ground (arith, new, h, ran, log_lifecycle-ok organization_id existing r v))
      | inr (x, v, ran) ↦ ground (
        arith,
        new,
        h,
        ran,
        with_tenant_query-rolls_back organization_id
            (statement (upsert_subscription_sql organization_id "dodo" r)) w ran,
      )
    ]
  ]

  -- An event that is answered with an error changed nothing, if each organization had at most
  -- one subscription before: the provider can deliver it again.
  pub process_webhook_event-error :
      (w w' : World) {e : Error}
      → HasOneEach w.db.subscriptions
      → process_webhook_event organization_id r w ≡ (err e, w')
      → w'.db ≡ w.db
  unfolding process_webhook_event
  process_webhook_event-error w w' {e} u h =
      let (found, v, read, same, known) = attempt_cases organization_id w u in
      elim (Bool-cases (organization_id == "" || r.status == "")) [
        | inl empty ↦ ground (arith, empty, h)
        | inr named ↦
            let ran : apply_report organization_id r found v ≡ (err e, w') =
              ground (arith, named, read, h) in
            apply_report-error found v w' ran ∙ same
      ]

  Reflects-has_status :
      (rows : List Subscription)
      → Reflects organization_id r rows
      → has_status (find (is_of organization_id) rows) r.status ≡ true
  Reflects-has_status rows s =
      ground (arith, s.stored, s.status, eq_iff s.subscription.status r.status)

  -- The event a second time, after it was acknowledged and while the connection answers, if
  -- each organization had at most one subscription before: it is acknowledged again, and
  -- nothing changes at all.
  pub process_webhook_event-idempotent :
      (w w' : World)
      → HasOneEach w.db.subscriptions
      → process_webhook_event organization_id r w ≡ (ok tt, w')
      → Answers w'
      → process_webhook_event organization_id r w' ≡ (ok tt, w')
  unfolding process_webhook_event apply_report
  process_webhook_event-idempotent w w' u h q =
      elim (Bool-cases (organization_id == "" || r.status == "")) [
        | inl empty ↦ absurd (ground (arith, empty, h))
        | inr named ↦
            let unique : HasOneEach w'.db.subscriptions =
              subst (λ (x : Result (Unit {0}) × World). HasOneEach x.1.db.subscriptions) h
                (process_webhook_event-HasOneEach w u) in
            let here = latest_subscription-find organization_id w'.db.subscriptions unique in
            let read =
              get_subscription-Answers organization_id w' q
                (λ e. ground (arith, named, eq_iff organization_id "")) in
            let equal : has_status (find (is_of organization_id) w'.db.subscriptions) r.status
                ≡ true =
              elim (process_webhook_event-Reflects organization_id r w w' u h) [
                | inl (old, kept) ↦ ground (arith, old, kept)
                | inr new ↦ Reflects-has_status w'.db.subscriptions new
              ] in
            ground (arith, named, read, here, equal)
      ]
