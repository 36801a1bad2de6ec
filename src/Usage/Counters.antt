-- ===== src/Usage/Counters.antt =====
-- What a counter shows after it was changed, and that the other counters do not change.
use modular_monolith.Prelude.{
  String, ◌≡◌, refl, ◌≢◌, inl, inr, true, List, [], ◌∷◌, ◌++◌, Option, none, some, arith, eq_refl,
  find, find-eq-some, map, if◌then◌else◌, Bool-cases,
}
use modular_monolith.Prelude.Int.{ℤ, pos, ◌+ℤ◌, int_laws}
use modular_monolith.Failure.{ok}
use modular_monolith.Tables.{Db, UsageCounter}
use modular_monolith.Session.{World, statement}
use modular_monolith.Session.Transactions.{Answers, with_tenant_query_ok, statement_ok}
use modular_monolith.Session.Atomic.{tenant_start}
use modular_monolith.Session.Inversion.{TenantRun, tenant_statement-eq-ok}
use modular_monolith.Usage.{
  counts, new_counter, counted, upsert_counter, upsert_counter_sql, select_usage_sql, get_usage,
  increment_usage, set_usage, value_of, get_value,
}

-- What the counter shows: 0 as long as nothing was counted.
abbrev pub shown : String → String → Db → ℤ
shown organization_id metric db = value_of (find (counts organization_id metric) db.usage_counters)

module _ (organization_id metric : String) where
  find_new :
      (rows : List UsageCounter) (c : UsageCounter)
      → find (counts organization_id metric) rows ≡ none
      → counts organization_id metric c ≡ true
      → find (counts organization_id metric) (rows ++ c ∷ []) ≡ some c
  find_new [] c h k = ground (arith, k)
  find_new (d ∷ rows) c h k = ground (arith, h, k, find_new rows c)

  find_changed :
      (rows : List UsageCounter) (c : UsageCounter) {old : UsageCounter}
      → find (counts organization_id metric) rows ≡ some old
      → counts organization_id metric c ≡ true
      → find
          (counts organization_id metric)
          (map (λ (d : UsageCounter). if counts organization_id metric d then c else d) rows)
        ≡ some c
  find_changed [] c h k = absurd (ground (arith, h))
  find_changed (d ∷ rows) c {old} h k = elim (Bool-cases (counts organization_id metric d)) [
    | inl here ↦ ground (arith, here, k)
    | inr other ↦ ground (arith, other, h, k, find_changed rows c {old = old})
  ]

  upsert_counter-shown :
      (value : ℤ) (change : ℤ → ℤ) (w w' : World) (c : UsageCounter) (found : Option UsageCounter)
      → change (pos 0) ≡ value
      → find (counts organization_id metric) w.db.usage_counters ≡ found
      → upsert_counter organization_id metric value change found w ≡ (ok c, w')
      → shown organization_id metric w'.db ≡ change (value_of found)
  unfolding upsert_counter
  upsert_counter-shown value change w w' c none base missing h = ground (
    arith,
    h,
    base,
    eq_refl organization_id,
    eq_refl metric,
    find_new w.db.usage_counters (new_counter w organization_id metric value) missing,
  )
  upsert_counter-shown value change w w' c (some old) base found h = ground (
    arith,
    h,
    (find-eq-some (counts organization_id metric) w.db.usage_counters found).1,
    find_changed w.db.usage_counters (counted w (change old.value) old) found,
  )

  upsert_counter_sql-shown :
      (value : ℤ) (change : ℤ → ℤ) (w w' : World) (c : UsageCounter)
      → change (pos 0) ≡ value
      → upsert_counter_sql organization_id metric value change w ≡ (ok c, w')
      → shown organization_id metric w'.db ≡ change (shown organization_id metric w.db)
  unfolding upsert_counter_sql
  upsert_counter_sql-shown value change w w' c base h = ground (
    arith,
    h,
    upsert_counter-shown value change w w' c
        (find (counts organization_id metric) w.db.usage_counters) base refl,
  )

  pub get_value-Answers :
      (w : World)
      → Answers w
      → organization_id ≢ ""
      → get_value organization_id metric w ≡ (ok (shown organization_id metric w.db), w)
  unfolding get_value get_usage select_usage_sql
  get_value-Answers w q named =
      let start = tenant_start organization_id w [] in
      let read = select_usage_sql organization_id metric in
      let ran =
        with_tenant_query_ok organization_id (statement read) w {final = start} q refl named
          (statement_ok read start refl) in
      ground (arith, ran, q)

  changed-get_value :
      (value : ℤ) (change : ℤ → ℤ) (w w' : World) (c : UsageCounter)
      → change (pos 0) ≡ value
      → TenantRun organization_id (upsert_counter_sql organization_id metric value change) w c w'
      → Answers w'
      → get_value organization_id metric w' ≡ (ok (change (shown organization_id metric w.db)), w')
  changed-get_value value change w w' c base t q = ground (
    arith,
    get_value-Answers w' q t.named,
    t.db,
    upsert_counter_sql-shown value change _ t.final c base t.ran,
  )

  -- After a successful increment the adapter reads the old value plus the amount, while the
  -- connection answers.
  pub increment_usage-get_value :
      (amount : ℤ) (w w' : World) (c : UsageCounter)
      → increment_usage organization_id metric amount w ≡ (ok c, w')
      → Answers w'
      → get_value organization_id metric w' ≡ (ok (shown organization_id metric w.db +ℤ amount), w')
  unfolding increment_usage
  increment_usage-get_value amount w w' c h q =
      let base : pos 0 +ℤ amount ≡ amount = omega int_laws in
      changed-get_value amount (λ value. value +ℤ amount) w w' c base
        (tenant_statement-eq-ok organization_id w
          (upsert_counter_sql organization_id metric amount (λ value. value +ℤ amount)) h)
        q

  -- After a value was set the adapter reads this value, while the connection answers.
  pub set_usage-get_value :
      (value : ℤ) (w w' : World) (c : UsageCounter)
      → set_usage organization_id metric value w ≡ (ok c, w')
      → Answers w'
      → get_value organization_id metric w' ≡ (ok value, w')
  unfolding set_usage
  set_usage-get_value value w w' c h q =
      changed-get_value value (λ _. value) w w' c refl
        (tenant_statement-eq-ok organization_id w
          (upsert_counter_sql organization_id metric value (λ _. value)) h)
        q
