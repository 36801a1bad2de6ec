-- ===== src/Access/Subscribed.antt =====
-- internal/modules/billing/subscription_middleware.go: a handler for organizations that pay.
use modular_monolith.Prelude.{
  String, ◌≡◌, ◌⊎◌, inl, inr, Bool, true, false, ◌||◌, Option, none, some, arith, Bool-cases,
  Option-cases, sym, ◌∙◌, ap,
}
use modular_monolith.Failure.{Result, ok, err}
use modular_monolith.Session.{World}
use modular_monolith.Session.Atomic.{outcome_cases}
use modular_monolith.Billing.Repository.{latest_subscription, get_subscription}
use modular_monolith.Billing.Service.{has_status, has_active_subscription}
use modular_monolith.Billing.Webhook.{get_subscription-db, get_subscription-eq-ok}
use modular_monolith.Access.{Context, Response, Handler, refuse}

-- An error of the checker counts as no subscription.
abbrev pub with_answer : Handler → Context → Result Bool × World → Response × World
with_answer next c (ok true, w) = next c w
with_answer next c (ok false, w) = refuse 403 "active subscription required" w
with_answer next c (err e, w) = refuse 403 "active subscription required" w

abbrev pub subscribed_in : Handler → Context → Option String → World → Response × World
subscribed_in next c none w = refuse 403 "active subscription required" w
subscribed_in next c (some organization_id) w =
    with_answer next c (has_active_subscription organization_id w)

unfoldable pub require_subscription : Handler → Handler
require_subscription next c = subscribed_in next c c.organization_id

-- The handler runs for an organization whose newest subscription is active or in its trial.
pub record Subscribed (next : Handler) (c : Context) (w : World) (x : Response × World)
    : Type 0 where
  pub organization_id : String
  pub tenant : c.organization_id ≡ some organization_id
  pub active :
      (has_status (latest_subscription organization_id w.db.subscriptions) "active" ≡ true)
      ⊎ (has_status (latest_subscription organization_id w.db.subscriptions) "trialing" ≡ true)
  pub start : World
  pub db : start.db ≡ w.db
  pub ran : x ≡ next c start

either : (a b : Bool) → (a || b) ≡ true → (a ≡ true) ⊎ (b ≡ true)
either a b h = ground (arith, h)

-- A request behind RequireSubscription is answered with 403, or the handler runs for an organization
-- whose newest subscription is active or trialing; in both cases the check changed nothing.
pub require_subscription_cases :
    (next : Handler) (c : Context) (w : World)
    → (((require_subscription next c w).0.status ≡ 403)
        × ((require_subscription next c w).1.db ≡ w.db))
      ⊎ Subscribed next c w (require_subscription next c w)
unfolding require_subscription has_active_subscription
require_subscription_cases next c w = elim (Option-cases c.organization_id) [
  | inl nowhere ↦ inl (ground (arith, nowhere), ground (arith, nowhere))
  | inr (organization_id, here) ↦ elim (outcome_cases (get_subscription organization_id w)) [
    | inr (e, v, h) ↦
        let same = get_subscription-db organization_id w in
        inl (ground (arith, here, h), ground (arith, here, h, same))
    | inl (found, v, h) ↦
        let same : v.db ≡ w.db = ground (arith, get_subscription-db organization_id w, h) in
        let known = get_subscription-eq-ok organization_id w v found h in
        elim (Bool-cases (has_status found "active" || has_status found "trialing")) [
          | inr inactive ↦
              inl (ground (arith, here, h, inactive), ground (arith, here, h, inactive, same))
          | inl active ↦ inr (record {
            organization_id = organization_id;
            tenant = here;
            active =
                either _ _
                  (ap (λ s. has_status s "active" || has_status s "trialing") (sym known) ∙ active);
            start = v;
            db = same;
            ran = ground (arith, here, h, active);
          })
        ]
  ]
]
