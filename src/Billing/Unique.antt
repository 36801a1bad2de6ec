-- ===== src/Billing/Unique.antt =====
-- At most one subscription for an organization (the index idx_subscriptions_organization), and what
-- follows for the query of `GetSubscription`.
use modular_monolith.Prelude.{
  String, ◌≡◌, refl, false, List, [], ◌∷◌, ◌++◌, none, some, arith, eq_iff, any, any-append, find,
  select, map, sort_by, Bool-cases, Option-cases, inl, inr, ◌∙◌,
}
use modular_monolith.Tables.{Subscription}
use modular_monolith.Billing.Repository.{is_of, latest_subscription}

abbrev pub HasOneEach : List Subscription → Type 0
HasOneEach [] = Unit
HasOneEach (s ∷ rows) = (any (is_of s.organization_id) rows ≡ false) × HasOneEach rows

pub HasOneEach-append :
    (rows : List Subscription) (s : Subscription)
    → HasOneEach rows
    → any (is_of s.organization_id) rows ≡ false
    → HasOneEach (rows ++ s ∷ [])
HasOneEach-append [] s u fresh = (refl, tt)
HasOneEach-append (t ∷ rows) s (first, u) fresh = (
  ground (
    arith,
    first,
    fresh,
    any-append (is_of t.organization_id) rows (s ∷ []),
    eq_iff s.organization_id t.organization_id,
    eq_iff t.organization_id s.organization_id,
  ),
  HasOneEach-append rows s u (ground (arith, fresh)),
)

select_of_none :
    (organization_id : String) (rows : List Subscription)
    → any (is_of organization_id) rows ≡ false
    → select (is_of organization_id) rows ≡ []
select_of_none organization_id [] h = refl
select_of_none organization_id (s ∷ rows) h = ground (arith, h, select_of_none organization_id rows)

select-find :
    (organization_id : String) (rows : List Subscription)
    → HasOneEach rows
    → select (is_of organization_id) rows
      ≡ elim (find (is_of organization_id) rows) [ none ↦ [] | some s ↦ s ∷ [] ]
select-find organization_id [] u = refl
select-find organization_id (s ∷ rows) (first, u) = elim (Bool-cases (is_of organization_id s)) [
  | inl here ↦ ground (
    arith,
    here,
    eq_iff s.organization_id organization_id,
    select_of_none organization_id rows,
    first,
  )
  | inr other ↦ ground (arith, other, select-find organization_id rows u)
]

-- With one subscription for each organization the newest is the only one.
pub latest_subscription-find :
    (organization_id : String) (rows : List Subscription)
    → HasOneEach rows
    → latest_subscription organization_id rows ≡ find (is_of organization_id) rows
unfolding latest_subscription sort_by
latest_subscription-find organization_id rows u =
    elim (Option-cases (find (is_of organization_id) rows)) [
      | inl missing ↦ ground (arith, missing, select-find organization_id rows u)
      | inr (s, found) ↦ ground (arith, found, select-find organization_id rows u)
    ]

-- Changes of a row that leave its organization alone.
module _ (f : Subscription → Subscription)
    (same : (s : Subscription) → (f s).organization_id ≡ s.organization_id) where
  any-map :
      (organization_id : String) (rows : List Subscription)
      → any (is_of organization_id) (map f rows) ≡ any (is_of organization_id) rows
  any-map organization_id [] = refl
  any-map organization_id (s ∷ rows) = ground (arith, same s, any-map organization_id rows)

  pub map-HasOneEach : (rows : List Subscription) → HasOneEach rows → HasOneEach (map f rows)
  map-HasOneEach [] u = tt
  map-HasOneEach (s ∷ rows) (first, u) =
      (rw (same s) (any-map s.organization_id rows ∙ first), map-HasOneEach rows u)

  pub find-map :
      (organization_id : String) (rows : List Subscription) {s : Subscription}
      → find (is_of organization_id) rows ≡ some s
      → find (is_of organization_id) (map f rows) ≡ some (f s)
  find-map organization_id [] h = absurd (ground (arith, h))
  find-map organization_id (t ∷ rows) {s} h = elim (Bool-cases (is_of organization_id t)) [
    | inl here ↦ ground (arith, here, h, same t)
    | inr other ↦ ground (arith, other, h, same t, find-map organization_id rows {s = s})
  ]
