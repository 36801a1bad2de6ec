-- ===== src/Rbac/Kinds.antt =====
-- The four default roles and what each of them grants (docs/ARCHITECTURE.md, migrations/008 and
-- 009), next to the predicates of the SQL in `BootstrapDefaultRolesTx`.
use mathlib.Core.List.{Memᴰ}
use modular_monolith.Prelude.{
  String, ◌==◌, ◌≡◌, ◌≢◌, ◌↔◌, inl, inr, refl, sym, ◌∙◌, true, false, List, [], ◌∷◌, arith, eq_iff,
  eq_refl, Bool-cases,
}
use modular_monolith.Rbac.Statements.{contains, default_roles, grants_by_default}

pub contains_of_mem :
    (name : String) (names : List String) → Memᴰ name names → contains name names ≡ true
contains_of_mem name [] m = elim m [ ]
contains_of_mem name (n ∷ names) (Memᴰ.head e) = ground (arith, e, eq_refl n)
contains_of_mem name (n ∷ names) (Memᴰ.tail m) = ground (arith, contains_of_mem name names m)

pub mem_of_contains :
    (name : String) (names : List String) → contains name names ≡ true → Memᴰ name names
mem_of_contains name [] h = absurd (ground (arith, h))
mem_of_contains name (n ∷ names) h = elim (Bool-cases (n == name)) [
  | inl same ↦ Memᴰ.head (ground (arith, same, eq_iff n name))
  | inr other ↦ Memᴰ.tail (mem_of_contains name names (ground (arith, h, other)))
]

-- The names of the default roles.
abbrev pub IsDefault : String → Type 0
IsDefault name = Memᴰ name ("owner" ∷ "admin" ∷ "member" ∷ "viewer" ∷ [])

-- What a default role grants: the owner all, the admin all but billing.write, the member and the
-- viewer what is listed.
pub data Allows (role permission : String) : Type 0 where
  as_owner : role ≡ "owner" → Allows role permission
  as_admin : role ≡ "admin" → permission ≢ "billing.write" → Allows role permission
  as_member :
      role ≡ "member"
      → Memᴰ permission ("users.read" ∷ "settings.read" ∷ [])
      → Allows role permission
  as_viewer :
      role ≡ "viewer"
      → Memᴰ permission ("users.read" ∷ "billing.read" ∷ "audit.read" ∷ "settings.read" ∷ [])
      → Allows role permission

pub default_roles_iff : (name : String) → IsDefault name ↔ (contains name default_roles ≡ true)
default_roles_iff name = (contains_of_mem name _, mem_of_contains name _)

-- The predicate for the role member, and for the role viewer.
module _ (permission : String) where
  member_grants :
      grants_by_default "member" permission
      ≡ contains permission ("users.read" ∷ "settings.read" ∷ [])
  unfolding grants_by_default
  member_grants = elim (Bool-cases (contains permission ("users.read" ∷ "settings.read" ∷ []))) [
    | inl t ↦ rw t refl
    | inr f ↦ rw f refl
  ]

  viewer_grants :
      grants_by_default "viewer" permission
      ≡ contains permission ("users.read" ∷ "billing.read" ∷ "audit.read" ∷ "settings.read" ∷ [])
  unfolding grants_by_default
  viewer_grants = refl

Allows-grants_by_default :
    (role permission : String) → Allows role permission → grants_by_default role permission ≡ true
unfolding grants_by_default
Allows-grants_by_default role permission (as_owner e) = rw e refl
Allows-grants_by_default role permission (as_admin e n) =
    let other : (permission == "billing.write") ≡ false =
      ground (arith, n, eq_iff permission "billing.write") in
    rw e (rw other refl)
Allows-grants_by_default role permission (as_member e m) =
    rw e (member_grants permission ∙ contains_of_mem permission _ m)
Allows-grants_by_default role permission (as_viewer e m) =
    rw e (viewer_grants permission ∙ contains_of_mem permission _ m)

grants_by_default-Allows :
    (role permission : String) → grants_by_default role permission ≡ true → Allows role permission
unfolding grants_by_default
grants_by_default-Allows role permission h = elim (Bool-cases (role == "owner")) [
  | inl o ↦ as_owner (ground (arith, o, eq_iff role "owner"))
  | inr not_owner ↦ elim (Bool-cases (role == "admin")) [
    | inl a ↦
        let is : role ≡ "admin" = ground (arith, a, eq_iff role "admin") in
        as_admin is (λ e. let k = rw (is, e) at h in absurd (ground (arith, k)))
    | inr na ↦ elim (Bool-cases (role == "member")) [
      | inl m ↦
          let is : role ≡ "member" = ground (arith, m, eq_iff role "member") in
          as_member is
            (mem_of_contains permission _ (sym (member_grants permission) ∙ (rw is at h)))
      | inr nm ↦
          let is : role ≡ "viewer" = ground (arith, h, not_owner, na, nm, eq_iff role "viewer") in
          as_viewer is
            (mem_of_contains permission _ (sym (viewer_grants permission) ∙ (rw is at h)))
    ]
  ]
]

-- The predicate of the SQL is this table.
pub grants_by_default_iff :
    (role permission : String) → (grants_by_default role permission ≡ true) ↔ Allows role permission
grants_by_default_iff role permission =
    (grants_by_default-Allows role permission, Allows-grants_by_default role permission)
