-- ===== src/Billing/Deliveries/Accepted.antt =====
-- What the answer to a webhook delivery means (webhook_handler.go, service.go, dodo/provider.go).
use modular_monolith.Prelude.{
  ◌<◌, ◌^◌, String, ◌==◌, ◌≡◌, ◌≢◌, ◌⊎◌, inl, inr, refl, sym, ◌∙◌, subst, Bool, true, false, arith,
  find, Bool-cases,
}
use modular_monolith.Failure.{Result, ok, Result-cases}
use modular_monolith.Session.{World}
use modular_monolith.Session.Atomic.{outcome_cases}
use modular_monolith.Http.{Outcome, done, status_of}
use modular_monolith.Authflow.Cookies.{unix}
use modular_monolith.Payments.{WebhookHeaders, Provider, Signing, verify_webhook_signature}
use modular_monolith.Payments.Signatures.{IsGenuine, verify_webhook_signature_iff}
use modular_monolith.Billing.Repository.{is_of}
use modular_monolith.Billing.Service.{has_status, process_webhook_event}
use modular_monolith.Billing.Unique.{HasOneEach}
use modular_monolith.Billing.Webhook.{Reflects, process_webhook_event-Reflects}
use modular_monolith.Billing.Idempotence.{process_webhook_event-error}
use modular_monolith.Billing.Deliveries.{
  WebhookPayload, BodyRead, too_large, unreadable, read, text_at, report_of, deliver,
  handle_webhook,
}

-- The delivery was refused: an error status, and the database is as it was.
pub record Rejected (w : World) (x : Outcome Bool × World) : Type 0 where
  pub status : status_of x.0 ≢ 200
  pub db : x.1.db ≡ w.db

-- The delivery was genuine and its event has been applied, or it was one that changes nothing.
pub record Acknowledged (signing : Signing) (p : Provider) (decode : String → Result WebhookPayload)
    (sent : BodyRead) (h : WebhookHeaders) (w : World) (x : Outcome Bool × World) : Type 0 where
  pub answered : x.0 ≡ done 200 true
  pub body : String
  pub was_read : sent ≡ read body
  pub genuine : IsGenuine signing p (unix w.now) body h
  pub payload : WebhookPayload
  pub decoded : decode body ≡ ok payload
  pub organization_id : String
  pub named : text_at "organization_id" payload.payload.metadata ≡ organization_id
  pub has_organization : (organization_id == "") ≡ false
  pub effect :
      ((has_status (find (is_of organization_id) w.db.subscriptions) payload.payload.status ≡ true)
        × (x.1.db ≡ w.db))
      ⊎ Reflects organization_id (report_of payload.payload) x.1.db.subscriptions

module _ (signing : Signing) (p : Provider) (decode : String → Result WebhookPayload)
    (h : WebhookHeaders) (w : World) (one : HasOneEach w.db.subscriptions)
    (early : unix w.now < 2 ^ 62) where
  deliver_cases :
      (body : String)
      → verify_webhook_signature signing p (unix w.now) body h ≡ ok tt
      → Rejected w (deliver (decode body) w)
        ⊎ Acknowledged signing p decode (read body) h w (deliver (decode body) w)
  unfolding deliver
  deliver_cases body accepted = elim (Result-cases (decode body)) [
    | inr (e, bad) ↦ inl (record { status = ground (arith, bad); db = ground (arith, bad) })
    | inl (payload, good) ↦
        let organization_id = text_at "organization_id" payload.payload.metadata in
        let r = report_of payload.payload in
        elim (Bool-cases (organization_id == "")) [
          | inl nameless ↦ inl (record {
            status = ground (arith, good, nameless);
            db = ground (arith, good, nameless);
          })
          | inr named ↦ elim (outcome_cases (process_webhook_event organization_id r w)) [
            | inr (e, w', failed) ↦ inl (record {
              status = ground (arith, good, named, failed);
              db =
                  ground (arith, good, named, failed)
                  ∙ process_webhook_event-error organization_id r w w' {e = e} one failed;
            })
            | inl (u, w', ran) ↦
                let reached : deliver (decode body) w ≡ (done 200 true, w') =
                  ground (arith, good, named, ran) in
                inr (
                  subst (λ x. Acknowledged signing p decode (read body) h w x) (sym reached)
                    (record {
                      answered = refl;
                      body = body;
                      was_read = refl;
                      genuine =
                          (verify_webhook_signature_iff signing p (unix w.now) body h early).0
                            accepted;
                      payload = payload;
                      decoded = good;
                      organization_id = organization_id;
                      named = refl;
                      has_organization = named;
                      effect = process_webhook_event-Reflects organization_id r w w' one ran;
                    }))
          ]
        ]
  ]

  -- Where every organization has at most one subscription, a webhook delivery is answered with an
  -- error status and changes nothing in the database, or it is answered with 200. Then its
  -- signature is genuine, its body is a payload that names an organization, and the subscription
  -- of this organization now says what the event says, or had the event's status already and
  -- nothing changed. The clock, in seconds, is below 2^62.
  pub handle_webhook_cases :
      (sent : BodyRead)
      → Rejected w (handle_webhook signing p decode sent h w)
        ⊎ Acknowledged signing p decode sent h w (handle_webhook signing p decode sent h w)
  unfolding handle_webhook
  handle_webhook_cases too_large = inl (record { status = ground arith; db = refl })
  handle_webhook_cases unreadable = inl (record { status = ground arith; db = refl })
  handle_webhook_cases (read body) =
      elim (Result-cases (verify_webhook_signature signing p (unix w.now) body h)) [
        | inr (e, bad) ↦ inl (record { status = ground (arith, bad); db = ground (arith, bad) })
        | inl (u, good) ↦ rw good (deliver_cases body good)
      ]
