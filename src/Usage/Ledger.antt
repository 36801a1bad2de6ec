-- ===== src/Usage/Ledger.antt =====
-- What holds of the counters in every history of increments and settings.
use modular_monolith.Prelude.{
  String, ◌≡◌, refl, ◌≢◌, ◌⊎◌, true, false, List, [], ◌∷◌, ◌++◌, Option, none, some, arith, eq_iff,
  eq_refl, any, any-append, find, find-eq-some, map, if◌then◌else◌, ◌∙◌, ap,
}
use modular_monolith.Prelude.Int.{ℤ, pos, ◌+ℤ◌, ltb_ℤ}
use modular_monolith.Prelude.Int64.{in_int64}
use modular_monolith.Tables.{Db, UsageCounter}
use modular_monolith.Session.{World}
use modular_monolith.Session.Transactions.{KeepsDb, with_tenant_query-KeepsDb}
use modular_monolith.Session.Keeps.{Keeps-statement}
use modular_monolith.Usage.{
  counts, new_counter, counted, upsert_counter, upsert_counter_sql, increment_usage, set_usage,
  value_of,
}
use modular_monolith.Usage.Counters.{shown}

pub data Change : Type 0 where
  increments : ℤ → Change
  sets : ℤ → Change

-- The world after a call of the repository.
unfoldable pub step : String → String → Change → World → World
step organization_id metric (increments amount) w =
    (increment_usage organization_id metric amount w).1
step organization_id metric (sets value) w = (set_usage organization_id metric value w).1

unfoldable pub run : List (String × String × Change) → World → World
run [] w = w
run ((organization_id, metric, change) ∷ changes) w =
    run changes (step organization_id metric change w)

-- A value that is no negative number and fits a BIGINT.
abbrev pub IsCount : ℤ → Type 0
IsCount v = (in_int64 v ≡ true) × (ltb_ℤ v (pos 0) ≡ false)

-- Each counter holds a count, and no two counters are of the same organization and metric.
abbrev pub IsLedger : List UsageCounter → Type 0
IsLedger [] = Unit
IsLedger (c ∷ rows) =
    IsCount c.value × (any (counts c.organization_id c.metric) rows ≡ false) × IsLedger rows

step-keeps :
    (P : Db → Type 0) (organization_id metric : String)
    → ((value : ℤ) (change : ℤ → ℤ)
        → KeepsDb P (upsert_counter_sql organization_id metric value change))
    → (change : Change) (w : World) → P w.db
    → P (step organization_id metric change w).db
unfolding step increment_usage set_usage
step-keeps P organization_id metric keep (increments amount) =
    (with_tenant_query-KeepsDb P _ (Keeps-statement _ (keep amount (λ value. value +ℤ amount)))
      organization_id).at
step-keeps P organization_id metric keep (sets value) =
    (with_tenant_query-KeepsDb P _ (Keeps-statement _ (keep value (λ _. value))) organization_id).at

IsLedger-append :
    (rows : List UsageCounter) (c : UsageCounter)
    → IsLedger rows
    → IsCount c.value
    → any (counts c.organization_id c.metric) rows ≡ false
    → IsLedger (rows ++ c ∷ [])
IsLedger-append [] c l v fresh = (v, refl, tt)
IsLedger-append (d ∷ rows) c (count, first, l) v fresh = (
  count,
  ground (
    arith,
    first,
    fresh,
    any-append (counts d.organization_id d.metric) rows (c ∷ []),
    eq_iff c.organization_id d.organization_id,
    eq_iff d.organization_id c.organization_id,
    eq_iff c.metric d.metric,
    eq_iff d.metric c.metric,
  ),
  IsLedger-append rows c l v (ground (arith, fresh)),
)

module _ (organization_id metric : String) where
  any_of_find :
      (rows : List UsageCounter)
      → find (counts organization_id metric) rows ≡ none
      → any (counts organization_id metric) rows ≡ false
  any_of_find [] h = refl
  any_of_find (c ∷ rows) h = ground (arith, h, any_of_find rows)

  -- Every row of the pair replaced by one that is of the pair again.
  module _ (c : UsageCounter) (same : counts organization_id metric c ≡ true) where
    abbrev replace : UsageCounter → UsageCounter
    replace d = if counts organization_id metric d then c else d

    any-replace :
        (o m : String) (rows : List UsageCounter)
        → any (counts o m) (map replace rows) ≡ any (counts o m) rows
    any-replace o m [] = refl
    any-replace o m (d ∷ rows) = ground (
      arith,
      same,
      any-replace o m rows,
      eq_iff c.organization_id organization_id,
      eq_iff c.metric metric,
      eq_iff d.organization_id organization_id,
      eq_iff d.metric metric,
    )

    map-IsLedger :
        (rows : List UsageCounter) → IsCount c.value → IsLedger rows → IsLedger (map replace rows)
    map-IsLedger [] v l = tt
    map-IsLedger (d ∷ rows) v (count, first, l) = (
      ground (arith, v, count),
      any-replace (replace d).organization_id (replace d).metric rows
          ∙ ground (
            arith,
            first,
            same,
            eq_iff c.organization_id organization_id,
            eq_iff c.metric metric,
            eq_iff d.organization_id organization_id,
            eq_iff d.metric metric,
          ),
      map-IsLedger rows v l,
    )

  upsert_counter-IsLedger :
      (value : ℤ) (change : ℤ → ℤ) (w : World) (found : Option UsageCounter)
      → find (counts organization_id metric) w.db.usage_counters ≡ found
      → IsCount value
      → IsLedger w.db.usage_counters
      → IsLedger (upsert_counter organization_id metric value change found w).1.db.usage_counters
  unfolding upsert_counter
  upsert_counter-IsLedger value change w none missing v l =
      IsLedger-append w.db.usage_counters (new_counter w organization_id metric value) l v
        (any_of_find w.db.usage_counters missing)
  upsert_counter-IsLedger value change w (some old) found v l = ground (
    arith,
    l,
    map-IsLedger (counted w (change old.value) old)
        (find-eq-some (counts organization_id metric) w.db.usage_counters found).1
        w.db.usage_counters,
  )

  upsert_counter_sql-IsLedger :
      (value : ℤ) (change : ℤ → ℤ)
      → KeepsDb
          (λ db. IsLedger db.usage_counters)
          (upsert_counter_sql organization_id metric value change)
  unfolding upsert_counter_sql
  upsert_counter_sql-IsLedger value change = record {
    at = λ w l. ground (arith, l, upsert_counter-IsLedger value change w _ refl);
  }

-- In every history of increments and settings of any amounts, with any failures of the
-- connection, and if it was so at the start,
-- each counter is a number from 0 to 2^63 - 1, and an organization has one counter for a metric.
pub run-IsLedger :
    (changes : List (String × String × Change)) (w : World)
    → IsLedger w.db.usage_counters
    → IsLedger (run changes w).db.usage_counters
unfolding run
run-IsLedger [] w l = l
run-IsLedger ((organization_id, metric, change) ∷ changes) w l =
    run-IsLedger changes (step organization_id metric change w) (
      step-keeps (λ db. IsLedger db.usage_counters) organization_id metric
        (upsert_counter_sql-IsLedger organization_id metric) change w l)

-- The counters of another organization, or of another metric.
module _ (organization_id metric o m : String) (other : (organization_id ≢ o) ⊎ (metric ≢ m)) where
  find-append_other :
      (rows : List UsageCounter) (c : UsageCounter)
      → counts organization_id metric c ≡ true
      → find (counts o m) (rows ++ c ∷ []) ≡ find (counts o m) rows
  find-append_other [] c same = ground (
    arith,
    same,
    other,
    eq_iff c.organization_id organization_id,
    eq_iff c.metric metric,
    eq_iff c.organization_id o,
    eq_iff c.metric m,
  )
  find-append_other (d ∷ rows) c same = ground (arith, find-append_other rows c same)

  find-replace_other :
      (rows : List UsageCounter) (c : UsageCounter) (same : counts organization_id metric c ≡ true)
      → find (counts o m) (map (replace organization_id metric c same) rows)
        ≡ find (counts o m) rows
  find-replace_other [] c same = refl
  find-replace_other (d ∷ rows) c same = ground (
    arith,
    same,
    other,
    find-replace_other rows c,
    eq_iff c.organization_id organization_id,
    eq_iff c.metric metric,
    eq_iff d.organization_id organization_id,
    eq_iff d.metric metric,
    eq_iff c.organization_id o,
    eq_iff c.metric m,
    eq_iff d.organization_id o,
    eq_iff d.metric m,
  )

  upsert_counter-other :
      (value : ℤ) (change : ℤ → ℤ) (w : World) (found : Option UsageCounter)
      → find (counts organization_id metric) w.db.usage_counters ≡ found
      → find
          (counts o m)
          (upsert_counter organization_id metric value change found w).1.db.usage_counters
        ≡ find (counts o m) w.db.usage_counters
  unfolding upsert_counter
  upsert_counter-other value change w none missing =
      find-append_other w.db.usage_counters (new_counter w organization_id metric value)
        (ground (arith, eq_refl organization_id, eq_refl metric))
  upsert_counter-other value change w (some old) found = ground (
    arith,
    find-replace_other w.db.usage_counters (counted w (change old.value) old)
        (find-eq-some (counts organization_id metric) w.db.usage_counters found).1,
  )

  upsert_counter_sql-other :
      (v : Option UsageCounter) (value : ℤ) (change : ℤ → ℤ)
      → KeepsDb
          (λ db. find (counts o m) db.usage_counters ≡ v)
          (upsert_counter_sql organization_id metric value change)
  unfolding upsert_counter_sql
  upsert_counter_sql-other v value change = record {
    at = λ w h. ground (arith, h, upsert_counter-other value change w _ refl);
  }

  -- A change of one counter, whether it succeeds or fails, leaves what the counters of every other
  -- organization and every other metric show.
  pub step-shown_other :
      (change : Change) (w : World)
      → shown o m (step organization_id metric change w).db ≡ shown o m w.db
  step-shown_other change w = ap value_of (
      step-keeps (λ db. find (counts o m) db.usage_counters ≡ find (counts o m) w.db.usage_counters)
        organization_id metric (upsert_counter_sql-other (find (counts o m) w.db.usage_counters))
        change w refl)
