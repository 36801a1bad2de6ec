-- ===== src/Billing/Repository.antt =====
-- internal/modules/billing/repository.go over the table subscriptions with its unique indexes
-- (migrations/010_billing_foundation.sql, 011_subscription_lifecycle.sql).
use modular_monolith.Prelude.{
  ℕ, suc, String, ◌==◌, Bool, false, not, ◌&&◌, List, [], ◌∷◌, ◌++◌, Option, none, some,
  if◌then◌else◌, select, find, any, sort_by, leb, map,
}
use modular_monolith.Failure.{
  Error, Result, ok, err, sentinel, no_rows, message, wrap, pgconn_v1, pgx_v5, pg_error, is_no_rows,
  subscription_already_exists, subscription_not_found,
}
use modular_monolith.Tables.{Subscription}
use modular_monolith.Session.{World, M, map_error, statement, violation, with_tenant_query}

abbrev pub is_of : String → Subscription → Bool
is_of organization_id s = s.organization_id == organization_id

abbrev pub head? : {A : Type 0} → List A → Option A
head? [] = none
head? (x ∷ xs) = some x

-- WHERE organization_id = $1 ORDER BY created_at DESC LIMIT 1
unfoldable pub latest_subscription : String → List Subscription → Option Subscription
latest_subscription organization_id rows = head? (
    sort_by (λ (s t : Subscription). leb t.created_at s.created_at)
      (select (is_of organization_id) rows))

-- No row is no error here: the caller receives nil.
unfoldable pub select_subscription_sql : String → M (Option Subscription)
select_subscription_sql organization_id w =
    (ok (latest_subscription organization_id w.db.subscriptions), w)

abbrev pub with_subscriptions : World → List Subscription → World
with_subscriptions w rows = record w { db = record (w.db) { subscriptions = rows } }

abbrev pub new_subscription :
    World
    → String
    → String
    → Option String
    → Option String
    → String
    → String
    → Option ℕ
    → Subscription
new_subscription w organization_id provider customer_id subscription_id plan status period_end =
    record {
      id = w.uuid w.drawn;
      organization_id = organization_id;
      provider = provider;
      provider_customer_id = customer_id;
      provider_subscription_id = subscription_id;
      plan = plan;
      status = status;
      current_period_end = period_end;
      created_at = w.now;
      updated_at = w.now;
    }

abbrev pub add_subscription : World → Subscription → World
add_subscription w s = record (with_subscriptions w (w.db.subscriptions ++ s ∷ [])) {
  drawn = suc w.drawn;
}

-- INSERT INTO subscriptions (organization_id, provider, plan, status) .. RETURNING
unfoldable pub insert_subscription_sql : String → String → String → String → M Subscription
insert_subscription_sql organization_id provider plan status w =
    let s = new_subscription w organization_id provider none none plan status none in
    if any (is_of organization_id) w.db.subscriptions
    then violation "23505" "idx_subscriptions_organization" w
    else (ok s, add_subscription w s)

abbrev scan_subscription : Option Subscription → Result Subscription
scan_subscription none = err no_rows
scan_subscription (some s) = ok s

abbrev pub names_subscription : String → String → Subscription → Bool
names_subscription id organization_id s = s.id == id && s.organization_id == organization_id

abbrev pub renewed : World → String → String → Option ℕ → Subscription → Subscription
renewed w plan status period_end s = record s {
  plan = plan;
  status = status;
  current_period_end = period_end;
  updated_at = w.now;
}

-- UPDATE subscriptions SET .. WHERE id = $1 AND organization_id = $2 RETURNING
unfoldable pub update_subscription_sql :
    String → String → String → String → Option ℕ → M Subscription
update_subscription_sql id organization_id plan status period_end w =
    let rows =
      map
        (λ (s : Subscription).
          if names_subscription id organization_id s then renewed w plan status period_end s else s)
        w.db.subscriptions in
    (
      scan_subscription (find (names_subscription id organization_id) rows),
      with_subscriptions w rows,
    )

-- Two values of a nullable column that a unique index takes for the same.
abbrev pub same_key : Option String → Option String → Bool
same_key (some a) (some b) = a == b
same_key none _ = false
same_key (some _) none = false

-- A row of another organization with the same provider and customer, or provider and subscription.
abbrev pub clashes_customer : Subscription → Subscription → Bool
clashes_customer s t =
    not (t.organization_id == s.organization_id)
    && t.provider == s.provider
    && same_key t.provider_customer_id s.provider_customer_id

abbrev pub clashes_subscription : Subscription → Subscription → Bool
clashes_subscription s t =
    not (t.organization_id == s.organization_id)
    && t.provider == s.provider
    && same_key t.provider_subscription_id s.provider_subscription_id

-- What the payment provider's event says of a subscription.
pub record Report : Type 0 where
  pub provider_subscription_id : String
  pub provider_customer_id : String
  pub plan : String
  pub status : String
  pub current_period_end : Option ℕ

-- ON CONFLICT (organization_id) DO UPDATE SET ..: the provider and the creation date stay.
abbrev pub reported : World → Report → Subscription → Subscription
reported w r s = record s {
  provider_customer_id = some r.provider_customer_id;
  provider_subscription_id = some r.provider_subscription_id;
  plan = r.plan;
  status = r.status;
  current_period_end = r.current_period_end;
  updated_at = w.now;
}

-- The row goes in if no unique index of the provider's identifiers forbids it.
abbrev pub guard_keys : Subscription → World → World → Result (Unit {0}) × World
guard_keys s w after =
    if any (clashes_customer s) w.db.subscriptions
    then violation "23505" "idx_subscriptions_provider_customer" w
    else if any (clashes_subscription s) w.db.subscriptions
    then violation "23505" "idx_subscriptions_provider_subscription" w
    else (ok tt, after)

unfoldable pub upsert_row : String → String → Report → Option Subscription → M (Unit {0})
upsert_row organization_id provider r none w =
    let s =
      new_subscription w organization_id provider (some r.provider_customer_id)
        (some r.provider_subscription_id) r.plan r.status r.current_period_end in
    guard_keys s w (add_subscription w s)
upsert_row organization_id provider r (some old) w = guard_keys (reported w r old) w (
    with_subscriptions w (
      map (λ (s : Subscription). if is_of organization_id s then reported w r s else s)
        w.db.subscriptions))

unfoldable pub upsert_subscription_sql : String → String → Report → M (Unit {0})
unfolding upsert_row
upsert_subscription_sql organization_id provider r w =
    upsert_row organization_id provider r (find (is_of organization_id) w.db.subscriptions) w

-- `errors.As(err, &pgErr) && pgErr.Code == "23505"`, for the `PgError` of `jackc/pgconn`.
unfoldable pub is_unique_violation : Error → Bool
is_unique_violation (pg_error pgconn_v1 code _) = code == "23505"
is_unique_violation (pg_error pgx_v5 _ _) = false
is_unique_violation (wrap _ e) = is_unique_violation e
is_unique_violation (sentinel _) = false
is_unique_violation no_rows = false
is_unique_violation (message _) = false

unfoldable pub get_subscription : String → M (Option Subscription)
get_subscription organization_id =
    with_tenant_query organization_id (statement (select_subscription_sql organization_id))

abbrev pub already_exists : Error → Error
already_exists e = if is_unique_violation e then sentinel subscription_already_exists else e

unfoldable pub create_subscription : String → String → String → String → M Subscription
create_subscription organization_id provider plan status = map_error already_exists (
    with_tenant_query organization_id
      (statement (insert_subscription_sql organization_id provider plan status)))

abbrev pub not_found : Error → Error
not_found e = if is_no_rows e then sentinel subscription_not_found else e

unfoldable pub update_subscription : String → String → String → String → Option ℕ → M Subscription
update_subscription id organization_id plan status period_end = map_error not_found (
    with_tenant_query organization_id
      (statement (update_subscription_sql id organization_id plan status period_end)))

unfoldable pub upsert_subscription_by_provider : String → String → Report → M (Unit {0})
upsert_subscription_by_provider organization_id provider r =
    with_tenant_query organization_id
      (statement (upsert_subscription_sql organization_id provider r))
