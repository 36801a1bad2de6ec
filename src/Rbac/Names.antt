-- ===== src/Rbac/Names.antt =====
-- `uniqueStrings` of internal/modules/rbac/repository_helpers.go.
use modular_monolith.Prelude.{
  String, ◌≡◌, refl, inl, inr, true, false, ◌||◌, List, [], ◌∷◌, arith, eq_iff, eq_refl, Bool-cases,
}
use modular_monolith.Rbac.Statements.{contains, unique_from, unique_strings}

abbrev pub HasNoRepeats : List String → Type 0
HasNoRepeats [] = Unit
HasNoRepeats (v ∷ vs) = (contains v vs ≡ false) × HasNoRepeats vs

unique_from-seen :
    (v : String) (seen vs : List String)
    → contains v seen ≡ true
    → contains v (unique_from seen vs) ≡ false
unfolding unique_from
unique_from-seen v seen [] h = refl
unique_from-seen v seen (x ∷ vs) h =
    ground (arith, h, eq_iff x v, unique_from-seen v seen vs, unique_from-seen v (x ∷ seen) vs)

unique_from-contains :
    (v : String) (seen vs : List String)
    → (contains v (unique_from seen vs) || contains v seen) ≡ (contains v vs || contains v seen)
unfolding unique_from
unique_from-contains v seen [] = refl
unique_from-contains v seen (x ∷ vs) =
    ground (arith, eq_iff x v, unique_from-contains v seen vs, unique_from-contains v (x ∷ seen) vs)

unique_from-HasNoRepeats : (seen vs : List String) → HasNoRepeats (unique_from seen vs)
unfolding unique_from
unique_from-HasNoRepeats seen [] = tt
unique_from-HasNoRepeats seen (x ∷ vs) = elim (Bool-cases (contains x seen)) [
  | inl old ↦ rw (old, unique_from) (unique_from-HasNoRepeats seen vs)
  | inr new ↦
      rw (new, unique_from)
        (
          unique_from-seen x (x ∷ seen) vs (ground (arith, eq_refl x)),
          unique_from-HasNoRepeats (x ∷ seen) vs,
        )
]

-- The result has every value of the list, no other value, and no value twice.
pub unique_strings-HasNoRepeats :
    (vs : List String)
    → HasNoRepeats (unique_strings vs)
      × ((v : String) → contains v (unique_strings vs) ≡ contains v vs)
unfolding unique_strings
unique_strings-HasNoRepeats vs =
    (unique_from-HasNoRepeats [] vs, λ v. ground (arith, unique_from-contains v [] vs))
