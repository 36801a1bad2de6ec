-- ===== src/Usage.antt =====
-- internal/modules/usage: the counters of an organization, over the table usage_counters
-- (migrations/013_usage_tracking.sql).
pub mod Counters
pub mod Ledger
use modular_monolith.Prelude.{
  suc, String, ◌==◌, Bool, ◌&&◌, not, List, [], ◌∷◌, ◌++◌, Option, none, some, if◌then◌else◌,
  select, find, sort_by, map,
}
use modular_monolith.Prelude.Int.{ℤ, pos, ◌+ℤ◌, ltb_ℤ}
use modular_monolith.Prelude.Int64.{in_int64}
use modular_monolith.Failure.{Result, ok, err}
use modular_monolith.Tables.{UsageCounter}
use modular_monolith.Session.{World, M, pure, statement, violation, ◌>>=◌, with_tenant_query}

abbrev pub counts : String → String → UsageCounter → Bool
counts organization_id metric c = c.organization_id == organization_id && c.metric == metric

-- No row is no error here: the caller receives nil.
unfoldable pub select_usage_sql : String → String → M (Option UsageCounter)
select_usage_sql organization_id metric w =
    (ok (find (counts organization_id metric) w.db.usage_counters), w)

abbrev pub with_counters : World → List UsageCounter → World
with_counters w rows = record w { db = record (w.db) { usage_counters = rows } }

abbrev pub new_counter : World → String → String → ℤ → UsageCounter
new_counter w organization_id metric value = record {
  id = w.uuid w.drawn;
  organization_id = organization_id;
  metric = metric;
  value = value;
  created_at = w.now;
  updated_at = w.now;
}

abbrev pub counted : World → ℤ → UsageCounter → UsageCounter
counted w value c = record c { value = value; updated_at = w.now }

-- BIGINT CHECK (value >= 0), which Postgres tests before it looks for the conflict.
abbrev pub guard_value : {A : Type 0} → ℤ → World → Result A × World → Result A × World
guard_value value w after =
    if not (in_int64 value)
    then violation "22003" "" w
    else if ltb_ℤ value (pos 0)
    then violation "23514" "usage_counters_value_check" w
    else after

unfoldable pub upsert_counter : String → String → ℤ → (ℤ → ℤ) → Option UsageCounter → M UsageCounter
upsert_counter organization_id metric value change none w =
    let c = new_counter w organization_id metric value in
    (ok c, record (with_counters w (w.db.usage_counters ++ c ∷ [])) { drawn = suc w.drawn })
upsert_counter organization_id metric value change (some old) w = guard_value (change old.value) w (
    let c = counted w (change old.value) old in
    (
      ok c,
      with_counters w (
          map (λ (d : UsageCounter). if counts organization_id metric d then c else d)
            w.db.usage_counters),
    ))

-- INSERT .. VALUES ($1, $2, $3) ON CONFLICT (organization_id, metric) DO UPDATE SET value = ..
unfoldable pub upsert_counter_sql : String → String → ℤ → (ℤ → ℤ) → M UsageCounter
unfolding upsert_counter
upsert_counter_sql organization_id metric value change w = guard_value value w (
    upsert_counter organization_id metric value change
      (find (counts organization_id metric) w.db.usage_counters) w)

unfoldable pub get_usage : String → String → M (Option UsageCounter)
get_usage organization_id metric =
    with_tenant_query organization_id (statement (select_usage_sql organization_id metric))

-- `IncrementUsage`, which `Service.IncrementMetric` and its four shorthands call.
unfoldable pub increment_usage : String → String → ℤ → M UsageCounter
increment_usage organization_id metric amount =
    with_tenant_query organization_id
      (statement (upsert_counter_sql organization_id metric amount (λ value. value +ℤ amount)))

unfoldable pub set_usage : String → String → ℤ → M UsageCounter
set_usage organization_id metric value =
    with_tenant_query organization_id
      (statement (upsert_counter_sql organization_id metric value (λ _. value)))

-- WHERE organization_id = $1 ORDER BY metric
unfoldable pub list_usage_sql : String → M (List UsageCounter)
list_usage_sql organization_id w = (
  ok (
      sort_by (λ (c d : UsageCounter). w.collate c.metric d.metric)
        (select (λ (c : UsageCounter). c.organization_id == organization_id) w.db.usage_counters)),
  w,
)

unfoldable pub list_usage : String → M (List UsageCounter)
list_usage organization_id =
    with_tenant_query organization_id (statement (list_usage_sql organization_id))

abbrev pub value_of : Option UsageCounter → ℤ
value_of none = pos 0
value_of (some c) = c.value

-- `Adapter.GetUsage`: a missing counter counts as 0.
unfoldable pub get_value : String → String → M ℤ
get_value organization_id metric = do c ← get_usage organization_id metric; pure (value_of c)

-- The methods of `Service`.
abbrev pub increment_metric : String → String → ℤ → M UsageCounter
increment_metric = increment_usage

abbrev pub increment_users : String → M UsageCounter
increment_users organization_id = increment_usage organization_id "users" (pos 1)

abbrev pub increment_documents : String → M UsageCounter
increment_documents organization_id = increment_usage organization_id "documents" (pos 1)

abbrev pub increment_api_requests : String → M UsageCounter
increment_api_requests organization_id = increment_usage organization_id "api_requests" (pos 1)

abbrev pub increment_storage : String → ℤ → M UsageCounter
increment_storage organization_id bytes = increment_usage organization_id "storage" bytes
