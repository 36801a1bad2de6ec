-- ===== src/Tests/Usage.antt =====
-- The theorems on counters and entitlements on the small database.
use modular_monolith.Prelude.{
  ℕ, ◌+◌, ◌^◌, ◌<◌, String, ◌≡◌, refl, ◌≢◌, true, [], ◌∷◌, arith, eq_iff, map,
}
use modular_monolith.Prelude.Int.{pos, negsuc, ◌+ℤ◌}
use modular_monolith.Failure.{ok}
use modular_monolith.Session.{World}
use modular_monolith.Usage.{new_counter, increment_usage, set_usage, get_value}
use modular_monolith.Usage.Counters.{shown, increment_usage-get_value}
use modular_monolith.Usage.Ledger.{increments, sets, run, IsLedger, run-IsLedger}
use modular_monolith.Entitlements.{limit_for_plan, Entitlement, metrics, can_use, get_entitlements}
use modular_monolith.Entitlements.Decisions.{
  IsDecided, plan_of, can_use_iff, can_use-overflow, get_entitlements-can_use,
}
use modular_monolith.Tests.World.{start}

increment_usage_example :
    get_value "acme" "users" (increment_usage "acme" "users" (pos 3) start).1 ≡ (
      ok (shown "acme" "users" start.db +ℤ pos 3),
      (increment_usage "acme" "users" (pos 3) start).1,
    )
unfolding increment_usage modular_monolith.Session.with_tenant_query
    modular_monolith.Session.round_trip modular_monolith.Session.in_transaction
    modular_monolith.Session.set_tenant_context modular_monolith.Usage.upsert_counter_sql
increment_usage_example =
    increment_usage-get_value "acme" "users" (pos 3) start
      (increment_usage "acme" "users" (pos 3) start).1 (new_counter start "acme" "users" (pos 3))
      refl refl

run-IsLedger_example :
    IsLedger
      (run
        (("acme", "users", increments (pos 2))
          ∷ ("acme", "users", increments (negsuc 4))
          ∷ ("acme", "storage", sets (pos 9))
          ∷ [])
        start).db.usage_counters
run-IsLedger_example =
    run-IsLedger
      (("acme", "users", increments (pos 2))
        ∷ ("acme", "users", increments (negsuc 4))
        ∷ ("acme", "storage", sets (pos 9))
        ∷ [])
      start tt

named : ◌≢◌ {A = String} "acme" ""
named = ground (arith, eq_iff "acme" "")

can_use_example :
    (e : Entitlement) × (can_use "acme" "users" (pos 4) start ≡ (ok e, start))
    × IsDecided "users" (limit_for_plan (plan_of "acme" start.db) "users") 0 4 e
can_use_example = can_use_iff "acme" start refl named "users" 0 4 refl (ground arith) (ground arith)

-- One unit used, and a request for 2^63 - 1.
abbrev one_used : World
one_used = record start {
  db = record (start.db) { usage_counters = new_counter start "acme" "users" (pos 1) ∷ [] };
}

can_use-overflow_example :
    (e : Entitlement) × (can_use "acme" "users" (pos 9223372036854775807) one_used
      ≡ (ok e, one_used))
    × (e.allowed ≡ true)
can_use-overflow_example =
    can_use-overflow "acme" one_used refl named "users" 1 9223372036854775807 refl (ground arith)
      (ground arith) (ground arith)

nothing_used :
    (metric : String) → (used : ℕ) × (shown "acme" metric start.db ≡ pos used) × (used + 1 < 2 ^ 63)
nothing_used metric = (0, refl, ground arith)

get_entitlements_example :
    (answers : String → Entitlement) × (get_entitlements "acme" start
      ≡ (ok (map answers metrics), start))
    × ((metric : String) → can_use "acme" metric (pos 1) start ≡ (ok (answers metric), start))
get_entitlements_example = get_entitlements-can_use "acme" start refl named nothing_used
