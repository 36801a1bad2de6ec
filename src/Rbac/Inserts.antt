-- ===== src/Rbac/Inserts.antt =====
-- What the INSERTs into roles and role_permissions leave in the tables (repository.go).
use mathlib.Core.List.{Memᴰ}
use modular_monolith.Prelude.{
  String, ◌==◌, ◌≡◌, inl, inr, ◌⊎◌, mem-append_cases, true, ◌&&◌, List, [], ◌∷◌, ◌++◌, arith,
  eq_iff, eq_refl, any-append, flat_map, Bool-cases, ap, mem-append_left, mem-append_right,
}
use modular_monolith.Tables.{RoleRow, RolePermissionRow}
use modular_monolith.Session.{World}
use modular_monolith.Rbac.Statements.{
  has_role_name, new_role, add_missing_role, add_missing_roles, has_grant, add_grant, insert_grants,
  contains,
}

module _ (role_id permission_id : String) where
  has_grant-insert_grants :
      (table gs : List RolePermissionRow)
      → has_grant role_id permission_id table ≡ true
      → has_grant role_id permission_id (insert_grants table gs) ≡ true
  unfolding insert_grants
  has_grant-insert_grants table [] h = h
  has_grant-insert_grants table (g ∷ gs) h = ground (
    arith,
    h,
    has_grant-insert_grants table gs,
    has_grant-insert_grants (table ++ g ∷ []) gs,
    any-append (λ (x : RolePermissionRow). x.role_id == role_id && x.permission_id == permission_id)
        table (g ∷ []),
  )

-- Every row that was to be inserted has its role and permission in the table afterwards.
pub has_grant_of_mem :
    (table gs : List RolePermissionRow) (g : RolePermissionRow)
    → Memᴰ g gs
    → has_grant g.role_id g.permission_id (insert_grants table gs) ≡ true
unfolding insert_grants
has_grant_of_mem table [] g m = elim m [ ]
has_grant_of_mem table (x ∷ gs) g (Memᴰ.head e) = rw e (
    has_grant-insert_grants x.role_id x.permission_id (add_grant table x) gs (
      ground (
        arith,
        any-append
            (λ (y : RolePermissionRow).
              y.role_id == x.role_id && y.permission_id == x.permission_id)
            table (x ∷ []),
        eq_refl x.role_id,
        eq_refl x.permission_id,
      )))
has_grant_of_mem table (x ∷ gs) g (Memᴰ.tail m) = has_grant_of_mem (add_grant table x) gs g m

module _ {A B : Type 0} (f : A → List B) where
  pub mem-flat_map :
      {b : B} (xs : List A) (a : A) → Memᴰ a xs → Memᴰ b (f a) → Memᴰ b (flat_map f xs)
  mem-flat_map [] a m k = elim m [ ]
  mem-flat_map (x ∷ xs) a (Memᴰ.head e) k = mem-append_left (f x) _ (rw e at k)
  mem-flat_map (x ∷ xs) a (Memᴰ.tail m) k = mem-append_right (f x) _ (mem-flat_map xs a m k)

only_one : {A : Type 0} {a b : A} → Memᴰ a (b ∷ []) → a ≡ b
only_one (Memᴰ.head e) = e
only_one (Memᴰ.tail m) = elim m [ ]

-- The two statements together, on any world.
module _ (organization_id : String) where
  add_missing_roles-has :
      (names : List String) (name : String) (w : World)
      → has_role_name organization_id name w.db.roles ≡ true
      → has_role_name organization_id name (add_missing_roles organization_id names w).db.roles
        ≡ true
  unfolding add_missing_roles
  add_missing_roles-has [] name w h = h
  add_missing_roles-has (n ∷ names) name w h =
      add_missing_roles-has names name (add_missing_role organization_id n w) (
        ground (
          arith,
          h,
          any-append (λ (r : RoleRow). r.organization_id == organization_id && r.name == name)
              w.db.roles (new_role w organization_id n ∷ []),
        ))

  pub add_missing_roles_complete :
      (names : List String) (name : String) (w : World)
      → contains name names ≡ true
      → has_role_name organization_id name (add_missing_roles organization_id names w).db.roles
        ≡ true
  unfolding add_missing_roles
  add_missing_roles_complete [] name w h = absurd (ground (arith, h))
  add_missing_roles_complete (n ∷ names) name w h = elim (Bool-cases (n == name)) [
    | inl same ↦ add_missing_roles-has names name (add_missing_role organization_id n w) (
        ground (
          arith,
          same,
          eq_iff n name,
          eq_refl organization_id,
          eq_refl name,
          any-append (λ (r : RoleRow). r.organization_id == organization_id && r.name == name)
              w.db.roles (new_role w organization_id n ∷ []),
        ))
    | inr other ↦
        add_missing_roles_complete names name (add_missing_role organization_id n w)
          (ground (arith, h, other))
  ]

  -- No role is inserted but the missing ones.
  pub add_missing_roles_cases :
      (names : List String) (w : World) (r : RoleRow)
      → Memᴰ r (add_missing_roles organization_id names w).db.roles
      → Memᴰ r w.db.roles ⊎ ((r.organization_id ≡ organization_id) × Memᴰ r.name names)
  unfolding add_missing_roles
  add_missing_roles_cases [] w r m = inl m
  add_missing_roles_cases (n ∷ names) w r m =
      elim (add_missing_roles_cases names (add_missing_role organization_id n w) r m) [
        | inr (same, k) ↦ inr (same, Memᴰ.tail k)
        | inl k ↦ elim (Bool-cases (has_role_name organization_id n w.db.roles)) [
          | inl there ↦ inl (rw there at k)
          | inr missing ↦ elim (mem-append_cases w.db.roles _ (rw missing at k)) [
            | inl old ↦ inl old
            | inr new ↦ inr (
              ap (λ (x : RoleRow). x.organization_id) (only_one new),
              Memᴰ.head (ap (λ (x : RoleRow). x.name) (only_one new)),
            )
          ]
        ]
      ]

pub insert_grants_cases :
    (table gs : List RolePermissionRow) (g : RolePermissionRow)
    → Memᴰ g (insert_grants table gs)
    → Memᴰ g table ⊎ Memᴰ g gs
unfolding insert_grants
insert_grants_cases table [] g m = inl m
insert_grants_cases table (x ∷ gs) g m = elim (insert_grants_cases (add_grant table x) gs g m) [
  | inr k ↦ inr (Memᴰ.tail k)
  | inl k ↦ elim (Bool-cases (has_grant x.role_id x.permission_id table)) [
    | inl there ↦ inl (rw there at k)
    | inr missing ↦ elim (mem-append_cases table _ (rw missing at k)) [
      | inl old ↦ inl old
      | inr new ↦ inr (Memᴰ.head (only_one new))
    ]
  ]
]
