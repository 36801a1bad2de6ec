-- ===== src/Billing/Deliveries.antt =====
-- internal/modules/billing/webhook_handler.go: the delivery of a webhook event.
pub mod Accepted
use modular_monolith.Prelude.{
  ℕ, String, ◌==◌, Bool, true, List, [], ◌∷◌, Option, none, some, if◌then◌else◌,
}
use modular_monolith.Failure.{Error, Result, ok, err}
use modular_monolith.Session.{World}
use modular_monolith.Http.{Outcome, done, refused, refuse_with, answer}
use modular_monolith.Authflow.Cookies.{unix}
use modular_monolith.Payments.{WebhookHeaders, Provider, Signing, verify_webhook_signature}
use modular_monolith.Billing.Repository.{Report}
use modular_monolith.Billing.Service.{process_webhook_event}

pub record WebhookData : Type 0 where
  pub subscription_id : String
  pub customer_id : String
  pub product_id : String
  pub status : String
  pub current_period_end : Option ℕ
  pub metadata : List (String × String)

pub record WebhookPayload : Type 0 where
  pub business_id : String
  pub type : String
  pub timestamp : String
  pub payload : WebhookData

-- What reading the body behind `http.MaxBytesReader` gives.
pub data BodyRead : Type 0 where
  too_large unreadable : BodyRead
  read : String → BodyRead

-- `m[key]` of a map[string]string
unfoldable pub text_at : String → List (String × String) → String
text_at key [] = ""
text_at key ((k, v) ∷ m) = let rest = text_at key m in if k == key then v else rest

abbrev pub report_of : WebhookData → Report
report_of d = record {
  provider_subscription_id = d.subscription_id;
  provider_customer_id = d.customer_id;
  plan = d.product_id;
  status = d.status;
  current_period_end = d.current_period_end;
}

-- From the decoded body on. `{"received":true}` is the body of the answer.
unfoldable pub deliver : Result WebhookPayload → World → Outcome Bool × World
unfolding text_at
deliver (err e) w = refuse_with 400 "invalid webhook payload" w
deliver (ok p) w =
    let organization_id = text_at "organization_id" p.payload.metadata in
    if organization_id == ""
    then refuse_with 400 "missing organization_id in metadata" w
    else answer (λ (u : Unit {0}). done 200 true) (λ e. refused 500 "failed to process webhook")
        (process_webhook_event organization_id (report_of p.payload) w)

abbrev pub delivered :
    (String → Result WebhookPayload) → String → Result (Unit {0}) → World → Outcome Bool × World
delivered decode body (err e) w = refuse_with 401 "invalid webhook signature" w
delivered decode body (ok u) w = deliver (decode body) w

-- `HandleWebhook`; `decode` is encoding/json for the payload.
unfoldable pub handle_webhook :
    Signing
    → Provider
    → (String → Result WebhookPayload)
    → BodyRead
    → WebhookHeaders
    → World
    → Outcome Bool × World
handle_webhook signing p decode too_large h w = refuse_with 413 "request body too large" w
handle_webhook signing p decode unreadable h w = refuse_with 400 "failed to read request body" w
handle_webhook signing p decode (read body) h w =
    delivered decode body (verify_webhook_signature signing p (unix w.now) body h) w
