-- ===== src/Rbac/Integrity.antt =====
-- The constraints of migrations/008_rbac_foundation.sql as an invariant: role names are unique in
-- an organization, no assignment is doubled, and grants and assignments name roles that exist.
pub mod Preserved
use modular_monolith.Prelude.{
  ℕ, suc, ◌+◌, ◌≤◌, String, ◌==◌, ◌≡◌, refl, Bool, true, false, ◌||◌, ◌&&◌, List, [], ◌∷◌, ◌++◌,
  arith, eq_iff, All, All-append, any, any-append, any_of_mem, length, length-append, select, not,
  Bool-cases, inl, inr, if◌then◌else◌, ap, mem_of_mem-select,
}
use modular_monolith.Tables.{Db, RoleRow, RolePermissionRow, UserRole, User}
use modular_monolith.Rbac.Statements.{has_role_name, has_role_id, has_grant, insert_grants}
use modular_monolith.Rbac.Queries.{is_assignment}

abbrev pub HasUniqueNames : List RoleRow → Type 0
HasUniqueNames [] = Unit
HasUniqueNames (r ∷ rows) =
    (has_role_name r.organization_id r.name rows ≡ false) × HasUniqueNames rows

abbrev pub HasUniqueAssignments : List UserRole → Type 0
HasUniqueAssignments [] = Unit
HasUniqueAssignments (a ∷ rows) =
    (any (is_assignment a.organization_id a.user_id a.role_id) rows ≡ false)
    × HasUniqueAssignments rows

-- FOREIGN KEY (organization_id, role_id) REFERENCES roles
abbrev pub NamesRole : List RoleRow → RolePermissionRow → Type 0
NamesRole roles g = has_role_id g.organization_id g.role_id roles ≡ true

abbrev pub AssignsRole : List RoleRow → UserRole → Type 0
AssignsRole roles a = has_role_id a.organization_id a.role_id roles ≡ true

pub record IsConsistent (db : Db) : Type 0 where
  pub role_names : HasUniqueNames db.roles
  pub assignments : HasUniqueAssignments db.user_roles
  pub grants_refer : All (NamesRole db.roles) db.role_permissions
  pub assignments_refer : All (AssignsRole db.roles) db.user_roles

pub HasUniqueNames-append :
    (rows : List RoleRow) (r : RoleRow)
    → HasUniqueNames rows
    → has_role_name r.organization_id r.name rows ≡ false
    → HasUniqueNames (rows ++ r ∷ [])
HasUniqueNames-append [] r u fresh = (refl, tt)
HasUniqueNames-append (s ∷ rows) r (first, u) fresh = (
  ground (
    arith,
    first,
    fresh,
    any-append (λ (t : RoleRow). t.organization_id == s.organization_id && t.name == s.name) rows
        (r ∷ []),
    eq_iff r.organization_id s.organization_id,
    eq_iff s.organization_id r.organization_id,
    eq_iff r.name s.name,
    eq_iff s.name r.name,
  ),
  HasUniqueNames-append rows r u (ground (arith, fresh)),
)

pub HasUniqueAssignments-append :
    (rows : List UserRole) (a : UserRole)
    → HasUniqueAssignments rows
    → any (is_assignment a.organization_id a.user_id a.role_id) rows ≡ false
    → HasUniqueAssignments (rows ++ a ∷ [])
HasUniqueAssignments-append [] a u fresh = (refl, tt)
HasUniqueAssignments-append (b ∷ rows) a (first, u) fresh = (
  ground (
    arith,
    first,
    fresh,
    any-append (is_assignment b.organization_id b.user_id b.role_id) rows (a ∷ []),
    eq_iff a.organization_id b.organization_id,
    eq_iff b.organization_id a.organization_id,
    eq_iff a.user_id b.user_id,
    eq_iff b.user_id a.user_id,
    eq_iff a.role_id b.role_id,
    eq_iff b.role_id a.role_id,
  ),
  HasUniqueAssignments-append rows a u (ground (arith, fresh)),
)

-- A role that exists still exists when rows are added.
pub has_role_id-append :
    (organization_id role_id : String) (rows more : List RoleRow)
    → has_role_id organization_id role_id rows ≡ true
    → has_role_id organization_id role_id (rows ++ more) ≡ true
has_role_id-append organization_id role_id rows more h = ground (
  arith,
  h,
  any-append (λ (r : RoleRow). r.organization_id == organization_id && r.id == role_id) rows more,
)

pub All-NamesRole-append :
    (gs : List RolePermissionRow) (rows more : List RoleRow)
    → All (NamesRole rows) gs
    → All (NamesRole (rows ++ more)) gs
All-NamesRole-append [] rows more h = tt
All-NamesRole-append (g ∷ gs) rows more (first, h) =
    (has_role_id-append _ _ rows more first, All-NamesRole-append gs rows more h)

pub All-AssignsRole-append :
    (rs : List UserRole) (rows more : List RoleRow)
    → All (AssignsRole rows) rs
    → All (AssignsRole (rows ++ more)) rs
All-AssignsRole-append [] rows more h = tt
All-AssignsRole-append (a ∷ rs) rows more (first, h) =
    (has_role_id-append _ _ rows more first, All-AssignsRole-append rs rows more h)

-- What holds of the rows of a table and of those to insert holds of the rows afterwards.
pub All-insert_grants :
    (P : RolePermissionRow → Type 0) (table gs : List RolePermissionRow)
    → All P table
    → All P gs
    → All P (insert_grants table gs)
unfolding insert_grants
All-insert_grants P table [] ht hg = ht
All-insert_grants P table (g ∷ gs) ht (hg, hgs) =
    elim (Bool-cases (has_grant g.role_id g.permission_id table)) [
      | inl old ↦ rw (old, insert_grants) (All-insert_grants P table gs ht hgs)
      | inr new ↦
          rw (new, insert_grants)
            (All-insert_grants P (table ++ g ∷ []) gs (All-append P table (g ∷ []) ht (hg, tt)) hgs)
    ]

pub length-insert_grants :
    (table gs : List RolePermissionRow) → length table ≤ length (insert_grants table gs)
unfolding insert_grants
length-insert_grants table [] = omega arith
length-insert_grants table (g ∷ gs) = ground (
  arith,
  length-insert_grants table gs,
  length-insert_grants (table ++ g ∷ []) gs,
  length-append table (g ∷ []),
)

-- An insertion that adds no row leaves the table as it is.
pub insert_grants_of_length :
    (table gs : List RolePermissionRow)
    → length (insert_grants table gs) ≤ length table
    → insert_grants table gs ≡ table
unfolding insert_grants
insert_grants_of_length table [] h = refl
insert_grants_of_length table (g ∷ gs) h =
    elim (Bool-cases (has_grant g.role_id g.permission_id table)) [
      | inl old ↦
          rw (old, insert_grants) (insert_grants_of_length table gs (rw (old, insert_grants) at h))
      | inr new ↦ absurd (
          ground (
            arith,
            new,
            h,
            length-insert_grants (table ++ g ∷ []) gs,
            length-append table (g ∷ []),
          ))
    ]
