-- ===== src/Entitlements/Decisions.antt =====
-- What the answers of the entitlement service mean, and where they overflow.
use modular_monolith.Prelude.{
  ℕ, ◌+◌, ◌-◌, ◌^◌, ◌≤◌, ◌<◌, String, ◌==◌, ◌≡◌, refl, ◌≢◌, ◌↔◌, ◌⊎◌, inl, inr, true, List, [], ◌∷◌,
  arith, map, Bool-cases, ◌∙◌, ap, ap₂,
}
use modular_monolith.Prelude.Int.{ℤ, pos, ◌+ℤ◌, ◌-ℤ◌, ◌≤ℤ◌, ltb_ℤ, -ℤ_parts, int_laws}
use modular_monolith.Prelude.Int64.{int64, int64_in_range}
use modular_monolith.Failure.{ok}
use modular_monolith.Tables.{Db}
use modular_monolith.Session.{World}
use modular_monolith.Session.Transactions.{Answers}
use modular_monolith.Billing.Repository.{latest_subscription}
use modular_monolith.Billing.Webhook.{get_subscription-Answers}
use modular_monolith.Usage.Counters.{shown, get_value-Answers}
use modular_monolith.Entitlements.{
  unlimited, limits_of, limit_for_plan, Entitlement, metrics, plan_and_status, subscription_of,
  plan_in_force, resolve_plan, entitlement, can_use, listed_entitlement, list_entitlements,
  get_entitlements,
}

-- A limit of the table of plans: none, or a number that a sum with a small amount does not overflow.
abbrev IsLimit : ℤ → Type 0
IsLimit limit = (limit ≡ unlimited) ⊎ ((n : ℕ) × (limit ≡ pos n) × (n < 2 ^ 62))

limits_of-IsLimit :
    (plan : String)
    → IsLimit (limits_of plan).users
      × IsLimit (limits_of plan).documents
      × IsLimit (limits_of plan).api_requests
      × IsLimit (limits_of plan).storage
limits_of-IsLimit plan = ground arith

limit_for_plan-IsLimit : (plan metric : String) → IsLimit (limit_for_plan plan metric)
unfolding limit_for_plan
limit_for_plan-IsLimit plan metric =
    let (users, documents, api_requests, storage) = limits_of-IsLimit plan in
    elim (Bool-cases (metric == "users")) [
      | inl e ↦ rw e users
      | inr n ↦ elim (Bool-cases (metric == "documents")) [
        | inl e ↦ rw (n, e) documents
        | inr n' ↦ elim (Bool-cases (metric == "api_requests")) [
          | inl e ↦ rw (n, n', e) api_requests
          | inr n'' ↦ elim (Bool-cases (metric == "storage")) [
            | inl e ↦ rw (n, n', n'', e) storage
            | inr k ↦ rw (n, n', n'', k) (inr (0, refl, omega arith))
          ]
        ]
      ]
    ]

difference_in_range : (a b : ℕ) → a < 2 ^ 63 → b < 2 ^ 63 → int64 (pos a -ℤ pos b) ≡ pos a -ℤ pos b
unfolding ◌-ℤ◌
difference_in_range a b h k = int64_in_range (pos a -ℤ pos b) (ground arith) (ground arith)

sum_in_range : (a b : ℕ) → a + b < 2 ^ 63 → int64 (pos a +ℤ pos b) ≡ pos (a + b)
sum_in_range a b h =
    let sum : pos a +ℤ pos b ≡ pos (a + b) = omega int_laws in
    ap int64 sum ∙ int64_in_range (pos (a + b)) h (omega arith)

sum_overflows :
    (a b : ℕ)
    → a < 2 ^ 63
    → b < 2 ^ 63
    → 2 ^ 63 ≤ a + b
    → ltb_ℤ (int64 (pos a +ℤ pos b)) (pos 0) ≡ true
unfolding ◌+ℤ◌ int64
sum_overflows a b h k over = ground arith

-- The decision on an amount: without a limit it is allowed; with a limit it is allowed exactly if
-- the counter and the amount are at most the limit.
pub record IsDecided (metric : String) (limit : ℤ) (used amount : ℕ) (e : Entitlement)
    : Type 0 where
  pub metric_is : e.metric ≡ metric
  pub used_is : e.used ≡ pos used
  pub limit_is : e.limit ≡ limit
  pub by_limit :
      ((limit ≡ unlimited) × (e.remaining ≡ unlimited) × (e.allowed ≡ true))
      ⊎ ((n : ℕ) × (limit ≡ pos n)
          × (e.remaining ≡ pos (n - used))
          × (e.allowed ≡ true ↔ (used + amount ≤ n)))
  pub by_remaining : e.allowed ≡ true ↔ ((limit ≡ unlimited) ⊎ (pos amount ≤ℤ e.remaining))

-- A use of a counter that counts from 0, of at least one unit, with a sum that fits.
entitlement-IsDecided :
    (metric : String) (limit : ℤ) (used amount : ℕ)
    → IsLimit limit
    → 1 ≤ amount
    → used + amount < 2 ^ 63
    → IsDecided metric limit used amount (entitlement metric limit (pos used) (pos amount))
unfolding entitlement
entitlement-IsDecided metric limit used amount (inl none_set) some_use fits = rw none_set (record {
  metric_is = refl;
  used_is = refl;
  limit_is = refl;
  by_limit = inl (refl, refl, refl);
  by_remaining = ((λ _. inl refl), (λ _. refl));
})
entitlement-IsDecided metric limit used amount (inr (n, e, small)) some_use fits =
    let rest = difference_in_range n used (omega arith) (omega arith) in
    let sum = sum_in_range used amount fits in
    let parts = -ℤ_parts (pos n) (pos used) in
    rw (e, rest, sum)
      (record {
        metric_is = ground arith;
        used_is = ground arith;
        limit_is = ground arith;
        by_limit = inr (n, refl, ground (arith, parts), (ground arith, ground arith));
        by_remaining = (ground (arith, some_use, parts), ground (arith, some_use, parts));
      })

listed_entitlement-entitlement :
    (metric : String) (limit : ℤ) (used : ℕ)
    → IsLimit limit
    → used + 1 < 2 ^ 63
    → listed_entitlement metric limit (pos used) ≡ entitlement metric limit (pos used) (pos 1)
unfolding entitlement listed_entitlement
listed_entitlement-entitlement metric limit used (inl none_set) fits = rw none_set refl
listed_entitlement-entitlement metric limit used (inr (n, e, small)) fits =
    rw (e, sum_in_range used 1 fits) (ground arith)

entitlement-overflow :
    (metric : String) (limit : ℤ) (used amount : ℕ)
    → IsLimit limit
    → used < 2 ^ 63
    → amount < 2 ^ 63
    → 2 ^ 63 ≤ used + amount
    → (entitlement metric limit (pos used) (pos amount)).allowed ≡ true
unfolding entitlement
entitlement-overflow metric limit used amount (inl none_set) small_use small over = rw none_set refl
entitlement-overflow metric limit used amount (inr (n, e, _)) small_use small over =
    let sum = sum_overflows used amount small_use small over in rw e (ground (arith, sum))

-- The plan that the stored subscription gives the organization.
abbrev pub plan_of : String → Db → String
plan_of organization_id db =
    let (plan, status) = plan_and_status (latest_subscription organization_id db.subscriptions) in
    plan_in_force plan status

module _ (organization_id : String) (w : World) (q : Answers w) (named : organization_id ≢ "") where
  resolve_plan-answers : resolve_plan organization_id w ≡ (ok (plan_of organization_id w.db), w)
  unfolding resolve_plan subscription_of
  resolve_plan-answers = ground (arith, get_subscription-Answers organization_id w q named)

  can_use-answers :
      (metric : String) (amount : ℤ)
      → can_use organization_id metric amount w ≡ (
        ok (
            entitlement metric
              (limit_for_plan (plan_of organization_id w.db) metric)
              (shown organization_id metric w.db)
              amount),
        w,
      )
  unfolding can_use
  can_use-answers metric amount =
      ground (arith, resolve_plan-answers, get_value-Answers organization_id metric w q named)

  list_entitlements-answers :
      (plan : String) (l : List String)
      → list_entitlements organization_id plan l w ≡ (
        ok (
            map
              (λ metric.
                listed_entitlement metric
                  (limit_for_plan plan metric)
                  (shown organization_id metric w.db))
              l),
        w,
      )
  unfolding list_entitlements
  list_entitlements-answers plan [] = refl
  list_entitlements-answers plan (metric ∷ l) =
      ground (
        arith,
        get_value-Answers organization_id metric w q named,
        list_entitlements-answers plan l,
      )

  -- While the connection answers, `CanUse` returns an entitlement with the stored counter as what is
  -- used and the plan's limit, and it is allowed exactly if the plan has no limit for the metric or
  -- the counter and the amount together are at most the limit, which is that the amount is at most
  -- what remains: the limit less the counter, or 0, or -1 for no limit. For amounts from 1 on that
  -- do not take the counter, a number from 0 on, beyond 2^63 - 1, and an organization with a name.
  pub can_use_iff :
      (metric : String) (used amount : ℕ)
      → shown organization_id metric w.db ≡ pos used
      → 1 ≤ amount
      → used + amount < 2 ^ 63
      → (e : Entitlement) × (can_use organization_id metric (pos amount) w ≡ (ok e, w))
        × IsDecided metric (limit_for_plan (plan_of organization_id w.db) metric) used amount e
  can_use_iff metric used amount known some_use fits =
      let plan = plan_of organization_id w.db in
      let limit = limit_for_plan plan metric in
      (
        entitlement metric limit (pos used) (pos amount),
        can_use-answers metric (pos amount)
            ∙ ap (λ v. (ok (entitlement metric limit v (pos amount)), w)) known,
        entitlement-IsDecided metric limit used amount (limit_for_plan-IsLimit plan metric) some_use
            fits,
      )

  -- Where the sum of the counter and the amount, each a number below 2^63, is beyond 2^63 - 1,
  -- and while the connection answers, `CanUse` says that the amount is allowed to an
  -- organization with a name, whatever the plan: the sum wraps around to a negative number.
  pub can_use-overflow :
      (metric : String) (used amount : ℕ)
      → shown organization_id metric w.db ≡ pos used
      → used < 2 ^ 63
      → amount < 2 ^ 63
      → 2 ^ 63 ≤ used + amount
      → (e : Entitlement) × (can_use organization_id metric (pos amount) w ≡ (ok e, w))
        × (e.allowed ≡ true)
  can_use-overflow metric used amount known small_use small over =
      let plan = plan_of organization_id w.db in
      let limit = limit_for_plan plan metric in
      (
        entitlement metric limit (pos used) (pos amount),
        can_use-answers metric (pos amount)
            ∙ ap (λ v. (ok (entitlement metric limit v (pos amount)), w)) known,
        entitlement-overflow metric limit used amount (limit_for_plan-IsLimit plan metric) small_use
            small over,
      )

  abbrev answer : String → Entitlement
  answer metric =
      entitlement metric (limit_for_plan (plan_of organization_id w.db) metric)
        (shown organization_id metric w.db) (pos 1)

  listed_map :
      (l : List String)
      → ((metric : String)
          → (used : ℕ) × (shown organization_id metric w.db ≡ pos used) × (used + 1 < 2 ^ 63))
      → map
          (λ metric.
            listed_entitlement metric
              (limit_for_plan (plan_of organization_id w.db) metric)
              (shown organization_id metric w.db))
          l
        ≡ map answer l
  listed_map [] small = refl
  listed_map (metric ∷ l) small =
      let (used, known, fits) = small metric in
      let plan = plan_of organization_id w.db in
      let here =
        listed_entitlement-entitlement metric (limit_for_plan plan metric) used
          (limit_for_plan-IsLimit plan metric) fits in
      ap₂ (λ e es. e ∷ es) (rw known here) (listed_map l small)

  -- While the connection answers, `GetEntitlements` lists for the four metrics exactly what `CanUse`
  -- answers for one more unit of each; if each counter is a number from 0 to 2^63 - 2 and the
  -- organization has a name.
  pub get_entitlements-can_use :
      ((metric : String)
        → (used : ℕ) × (shown organization_id metric w.db ≡ pos used) × (used + 1 < 2 ^ 63))
      → (answers : String → Entitlement) × (get_entitlements organization_id w
          ≡ (ok (map answers metrics), w))
        × ((metric : String) → can_use organization_id metric (pos 1) w ≡ (ok (answers metric), w))
  unfolding get_entitlements
  get_entitlements-can_use small = (
    answer,
    ground (
      arith,
      resolve_plan-answers,
      list_entitlements-answers (plan_of organization_id w.db) metrics,
    )
        ∙ ap (λ l. (ok l, w)) (listed_map metrics small),
    (λ metric. can_use-answers metric (pos 1)),
  )
