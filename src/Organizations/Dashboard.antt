-- ===== src/Organizations/Dashboard.antt =====
-- internal/modules/organizations/dashboard_handler.go and dashboard_dto.go, with the adapter
-- `orgNameAdapter` of the router.
use modular_monolith.Prelude.{String, ◌==◌, List, Option, none, some, if◌then◌else◌, find}
use modular_monolith.Prelude.Int.{ℤ, pos}
use modular_monolith.Failure.{Error, Result, ok, err, message, sentinel, no_rows, pg_error, wrap}
use modular_monolith.Tables.{Organization}
use modular_monolith.Session.{World, M, pure, ◌>>=◌, statement, with_tenant_query, map_error}
use modular_monolith.Http.{Outcome, Serve, done, refused, in_organization, answer}
use modular_monolith.Rbac.Queries.{scan_row}
use modular_monolith.Usage.{get_value}
use modular_monolith.Entitlements.{Entitlement, get_entitlements, subscription_of}

-- SELECT name FROM organizations WHERE organization_id = $1 LIMIT 1
unfoldable pub select_name_sql : String → M Organization
select_name_sql organization_id w = (
  scan_row (find (λ (o : Organization). o.organization_id == organization_id) w.db.organizations),
  w,
)

-- `orgNameAdapter.GetOrganizationName`
unfoldable pub get_organization_name : String → M String
get_organization_name organization_id = do
  o ← with_tenant_query organization_id (statement (select_name_sql organization_id))
  pure o.name

-- `v, _ := ..`: on an error the value is the zero value.
abbrev pub or_zero : {A : Type 0} → A → Result A × World → Result A × World
or_zero zero (ok a, w) = (ok a, w)
or_zero zero (err e, w) = (ok zero, w)

abbrev pub lenient : {A : Type 0} → A → M A → M A
lenient zero m w = or_zero zero (m w)

pub record DashboardUsage : Type 0 where
  pub users : ℤ
  pub documents : ℤ
  pub api_requests : ℤ
  pub storage : ℤ

unfoldable pub dashboard_usage : String → M DashboardUsage
dashboard_usage organization_id = do
  users ← lenient (pos 0) (get_value organization_id "users")
  documents ← lenient (pos 0) (get_value organization_id "documents")
  api_requests ← lenient (pos 0) (get_value organization_id "api_requests")
  storage ← lenient (pos 0) (get_value organization_id "storage")
  pure (record {
    users = users;
    documents = documents;
    api_requests = api_requests;
    storage = storage;
  })

-- The current period's end is never set.
pub record DashboardSubscription : Type 0 where
  pub plan : String
  pub status : String

pub record DashboardResponse : Type 0 where
  pub id : String
  pub name : String
  pub subscription : Option DashboardSubscription
  pub usage : DashboardUsage
  pub entitlements : List Entitlement

abbrev shown_subscription : String × String → Option DashboardSubscription
shown_subscription (plan, status) =
    if plan == "" then none else some (record { plan = plan; status = status })

-- What a failed step answers: its text, with status 500.
abbrev pub failing_with : {A : Type 0} → String → M A → M A
failing_with text = map_error (λ e. message text)

abbrev text_of : Error → String
text_of (message text) = text
text_of (sentinel s) = ""
text_of no_rows = ""
text_of (pg_error l code constraint) = ""
text_of (wrap text e) = ""

abbrev failed : {A : Type 0} → Error → Outcome A
failed e = refused 500 (text_of e)

unfoldable pub dashboard_data : String → M DashboardResponse
unfolding get_organization_name subscription_of dashboard_usage
dashboard_data organization_id = do
  name ← failing_with "failed to get organization" (get_organization_name organization_id)
  s ← lenient ("", "") (subscription_of organization_id)
  usage ← dashboard_usage organization_id
  entitlements ← failing_with "failed to get entitlements" (get_entitlements organization_id)
  pure (record {
    id = organization_id;
    name = name;
    subscription = shown_subscription s;
    usage = usage;
    entitlements = entitlements;
  })

unfoldable pub dashboard : Serve DashboardResponse
unfolding dashboard_data
dashboard c =
    in_organization c.organization_id
      λ organization_id w. answer (λ d. done 200 d) failed (dashboard_data organization_id w)

pub record SummaryResponse : Type 0 where
  pub organization_id : String
  pub organization_name : String
  pub plan : String
  pub status : String

unfoldable pub summary_data : String → M SummaryResponse
unfolding get_organization_name subscription_of
summary_data organization_id = do
  name ← failing_with "failed to get organization" (get_organization_name organization_id)
  s ← lenient ("", "") (subscription_of organization_id)
  pure (record {
    organization_id = organization_id;
    organization_name = name;
    plan = s.0;
    status = s.1;
  })

unfoldable pub summary : Serve SummaryResponse
unfolding summary_data
summary c =
    in_organization c.organization_id
      λ organization_id w. answer (λ d. done 200 d) failed (summary_data organization_id w)

unfoldable pub usage_summary : Serve DashboardUsage
unfolding dashboard_usage
usage_summary c =
    in_organization c.organization_id
      λ organization_id w. answer (λ u. done 200 u) failed (dashboard_usage organization_id w)
