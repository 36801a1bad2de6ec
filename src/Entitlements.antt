-- ===== src/Entitlements.antt =====
-- internal/modules/entitlements: what the plan of an organization allows. Subscriptions and usage
-- come through the adapters that internal/router/routes.go builds.
pub mod Decisions
use modular_monolith.Prelude.{
  String, ◌==◌, Bool, true, ◌||◌, List, [], ◌∷◌, Option, none, some, if◌then◌else◌,
}
use modular_monolith.Prelude.Int.{ℤ, pos, negsuc, ◌+ℤ◌, ◌-ℤ◌, ltb_ℤ, leb_ℤ, eq_ℤ}
use modular_monolith.Prelude.Int64.{int64}
use modular_monolith.Failure.{Result, ok, err}
use modular_monolith.Tables.{Subscription}
use modular_monolith.Session.{World, M, pure, ◌>>=◌}
use modular_monolith.Billing.Repository.{get_subscription}
use modular_monolith.Usage.{get_value}

-- `Unlimited`, which is -1.
abbrev pub unlimited : ℤ
unlimited = negsuc 0

pub record PlanLimits : Type 0 where
  pub users : ℤ
  pub documents : ℤ
  pub api_requests : ℤ
  pub storage : ℤ

abbrev free : PlanLimits
free = record {
  users = pos 1;
  documents = pos 50;
  api_requests = pos 1000;
  storage = pos 104857600;
}

abbrev pro : PlanLimits
pro = record {
  users = pos 10;
  documents = pos 5000;
  api_requests = pos 100000;
  storage = pos 10737418240;
}

abbrev enterprise : PlanLimits
enterprise = record {
  users = unlimited;
  documents = unlimited;
  api_requests = unlimited;
  storage = unlimited;
}

-- `Plans[plan]`; a plan that is not in the map counts as "free".
abbrev pub limits_of : String → PlanLimits
limits_of plan =
    if plan == "free"
    then free
    else if plan == "pro"
    then pro
    else if plan == "enterprise"
    then enterprise
    else free

unfoldable pub limit_for_plan : String → String → ℤ
limit_for_plan plan metric =
    if metric == "users"
    then (limits_of plan).users
    else if metric == "documents"
    then (limits_of plan).documents
    else if metric == "api_requests"
    then (limits_of plan).api_requests
    else if metric == "storage"
    then (limits_of plan).storage
    else pos 0

pub record Entitlement : Type 0 where
  pub metric : String
  pub used : ℤ
  pub limit : ℤ
  pub remaining : ℤ
  pub allowed : Bool

abbrev pub metrics : List String
metrics = "users" ∷ "documents" ∷ "api_requests" ∷ "storage" ∷ []

-- `subscriptionAdapter.GetSubscription`: plan and status, both empty if there is none.
abbrev pub plan_and_status : Option Subscription → String × String
plan_and_status none = ("", "")
plan_and_status (some s) = (s.plan, s.status)

unfoldable pub subscription_of : String → M (String × String)
subscription_of organization_id = do s ← get_subscription organization_id; pure (plan_and_status s)

abbrev pub plan_in_force : String → String → String
plan_in_force plan status =
    if plan == ""
    then "free"
    else if status == "active" || status == "trialing"
    then plan
    else "free"

-- An error counts as no subscription.
abbrev pub or_free : Result (String × String) × World → Result String × World
or_free (ok (plan, status), w) = (ok (plan_in_force plan status), w)
or_free (err e, w) = (ok "free", w)

unfoldable pub resolve_plan : String → M String
resolve_plan organization_id w = or_free (subscription_of organization_id w)

unfoldable pub get_limit : String → String → M ℤ
get_limit organization_id metric = do
  plan ← resolve_plan organization_id
  pure (limit_for_plan plan metric)

-- `e.Remaining`: the sum and difference of int64 values wrap around.
abbrev pub remaining_of : ℤ → ℤ → ℤ
remaining_of limit used =
    let rest = int64 (limit -ℤ used) in if ltb_ℤ rest (pos 0) then pos 0 else rest

-- limit == Unlimited
abbrev pub is_unlimited : ℤ → Bool
is_unlimited limit = eq_ℤ limit unlimited

-- The body of `CanUse` after the usage was read.
unfoldable pub entitlement : String → ℤ → ℤ → ℤ → Entitlement
entitlement metric limit used amount =
    if is_unlimited limit
    then record {
      metric = metric;
      used = used;
      limit = limit;
      remaining = unlimited;
      allowed = true;
    }
    else record {
      metric = metric;
      used = used;
      limit = limit;
      remaining = remaining_of limit used;
      allowed = leb_ℤ (int64 (used +ℤ amount)) limit;
    }

unfoldable pub can_use : String → String → ℤ → M Entitlement
can_use organization_id metric amount = do
  plan ← resolve_plan organization_id
  used ← get_value organization_id metric
  pure (entitlement metric (limit_for_plan plan metric) used amount)

-- The body of the loop of `GetEntitlements` after the usage was read.
unfoldable pub listed_entitlement : String → ℤ → ℤ → Entitlement
listed_entitlement metric limit used =
    if is_unlimited limit
    then record {
      metric = metric;
      used = used;
      limit = limit;
      remaining = unlimited;
      allowed = true;
    }
    else record {
      metric = metric;
      used = used;
      limit = limit;
      remaining = remaining_of limit used;
      allowed = ltb_ℤ used limit;
    }

unfoldable pub list_entitlements : String → String → List String → M (List Entitlement)
list_entitlements organization_id plan [] = pure []
list_entitlements organization_id plan (metric ∷ rest) =
    get_value organization_id metric >>= λ used.
    list_entitlements organization_id plan rest >>= λ others.
    pure (listed_entitlement metric (limit_for_plan plan metric) used ∷ others)

unfoldable pub get_entitlements : String → M (List Entitlement)
get_entitlements organization_id = do
  plan ← resolve_plan organization_id
  list_entitlements organization_id plan metrics
