-- ===== src/Prelude/Search.antt =====
-- What `any`, `find` and `select` find in a table.
use mathlib.Core.Bool.{Bool, true, false, not, ◌||◌}
use mathlib.Core.Path.{◌≡◌, refl, ap, ◌∙◌}
use mathlib.Core.Logic.{◌⊎◌, inl, inr}
use mathlib.Core.List.{List, [], ◌∷◌, ◌++◌, Memᴰ, map}
use mathlib.Core.Option.{none, some}
use native.Mathlib.Omega.{arith}
use modular_monolith.Prelude.Tests.{Bool-cases}
use modular_monolith.Prelude.Lists.{any, find, select, flat_map}

module _ {A : Type 0} (p : A → Bool) where
  pub any-append : (xs ys : List A) → any p (xs ++ ys) ≡ (any p xs || any p ys)
  any-append [] ys = refl
  any-append (x ∷ xs) ys = ground (arith, any-append xs ys)

  pub any_of_mem : {x : A} (xs : List A) → Memᴰ x xs → p x ≡ true → any p xs ≡ true
  any_of_mem [] m h = elim m [ ]
  any_of_mem (y ∷ xs) (Memᴰ.head e) h = ground (arith, e, h)
  any_of_mem (y ∷ xs) (Memᴰ.tail m) h = ground (arith, any_of_mem xs m h)

  pub mem_of_any : (xs : List A) → any p xs ≡ true → (x : A) × Memᴰ x xs × (p x ≡ true)
  mem_of_any [] e = absurd (ground (arith, e))
  mem_of_any (x ∷ xs) e = elim (Bool-cases (p x)) [
    | inl h ↦ (x, Memᴰ.head refl, h)
    | inr h ↦ let (y, m, hy) = mem_of_any xs (ground (arith, e, h)) in (y, Memᴰ.tail m, hy)
  ]

  pub select-append : (xs ys : List A) → select p (xs ++ ys) ≡ select p xs ++ select p ys
  select-append [] ys = refl
  select-append (x ∷ xs) ys = ground (arith, select-append xs ys)

  -- A table in which no row is selected by `p` is what `DELETE .. WHERE p` leaves of it.
  pub select-not_of_none : (xs : List A) → any p xs ≡ false → select (λ x. not (p x)) xs ≡ xs
  select-not_of_none [] e = refl
  select-not_of_none (x ∷ xs) e = ground (arith, e, select-not_of_none xs)

  pub find_of_none : (xs : List A) → any p xs ≡ false → find p xs ≡ none
  find_of_none [] e = refl
  find_of_none (x ∷ xs) e = ground (arith, e, find_of_none xs)

  pub find-append_of_none : (xs ys : List A) → any p xs ≡ false → find p (xs ++ ys) ≡ find p ys
  find-append_of_none [] ys e = refl
  find-append_of_none (x ∷ xs) ys e = ground (arith, e, find-append_of_none xs ys)

  pub find-eq-some : (xs : List A) {a : A} → find p xs ≡ some a → Memᴰ a xs × (p a ≡ true)
  find-eq-some [] e = absurd (ground (arith, e))
  find-eq-some (x ∷ xs) {a} e = elim (Bool-cases (p x)) [
    | inl h ↦ (Memᴰ.head (ground (arith, e, h)), ground (arith, e, h))
    | inr h ↦ let (m, ha) = find-eq-some xs (ground (arith, e, h)) in (Memᴰ.tail m, ha)
  ]

module _ {A : Type 0} (p q : A → Bool) where
  -- Rows that `q` does not select do not show in what `q` selects.
  pub any_congr : (xs : List A) → ((x : A) → p x ≡ q x) → any p xs ≡ any q xs
  any_congr [] h = refl
  any_congr (x ∷ xs) h = ground (arith, h x, any_congr xs h)

mem_below :
    {A : Type 0} {x y : A} {xs zs : List A}
    → (Memᴰ x zs → Memᴰ x xs)
    → Memᴰ x (y ∷ zs)
    → Memᴰ x (y ∷ xs)
mem_below f (Memᴰ.head e) = Memᴰ.head e
mem_below f (Memᴰ.tail m) = Memᴰ.tail (f m)

module _ {A : Type 0} (p : A → Bool) where
  pub mem-select_of_mem : {x : A} (xs : List A) → Memᴰ x xs → p x ≡ true → Memᴰ x (select p xs)
  mem-select_of_mem [] m h = elim m [ ]
  mem-select_of_mem (y ∷ xs) (Memᴰ.head e) h = rw (← e, h) (Memᴰ.head refl)
  mem-select_of_mem (y ∷ xs) (Memᴰ.tail m) h = elim (Bool-cases (p y)) [
    | inl t ↦ rw t (Memᴰ.tail (mem-select_of_mem xs m h))
    | inr f ↦ rw f (mem-select_of_mem xs m h)
  ]

  pub mem_of_mem-select : {x : A} (xs : List A) → Memᴰ x (select p xs) → Memᴰ x xs
  mem_of_mem-select [] m = m
  mem_of_mem-select (y ∷ xs) m = elim (Bool-cases (p y)) [
    | inl t ↦ mem_below (mem_of_mem-select xs) (rw t at m)
    | inr f ↦ Memᴰ.tail (mem_of_mem-select xs (rw f at m))
  ]

  test_below :
      {x y : A} (xs : List A) → p y ≡ true → (Memᴰ x xs → p x ≡ true) → Memᴰ x (y ∷ xs) → p x ≡ true
  test_below xs t rest (Memᴰ.head e) = ap p e ∙ t
  test_below xs t rest (Memᴰ.tail n) = rest n

  -- The test holds of what it selects.
  pub test_of_mem-select : {x : A} (xs : List A) → Memᴰ x (select p xs) → p x ≡ true
  test_of_mem-select [] m = elim m [ ]
  test_of_mem-select (y ∷ xs) m = elim (Bool-cases (p y)) [
    | inl t ↦ test_below (select p xs) t (test_of_mem-select xs) (rw t at m)
    | inr f ↦ test_of_mem-select xs (rw f at m)
  ]

module _ {A : Type 0} {a : A} where
  pub mem-append_left : (xs ys : List A) → Memᴰ a xs → Memᴰ a (xs ++ ys)
  mem-append_left [] ys m = elim m [ ]
  mem-append_left (x ∷ xs) ys (Memᴰ.head e) = Memᴰ.head e
  mem-append_left (x ∷ xs) ys (Memᴰ.tail m) = Memᴰ.tail (mem-append_left xs ys m)

  pub mem-append_right : (xs ys : List A) → Memᴰ a ys → Memᴰ a (xs ++ ys)
  mem-append_right [] ys m = m
  mem-append_right (x ∷ xs) ys m = Memᴰ.tail (mem-append_right xs ys m)

  pub mem-append_cases : (xs ys : List A) → Memᴰ a (xs ++ ys) → Memᴰ a xs ⊎ Memᴰ a ys
  mem-append_cases [] ys m = inr m
  mem-append_cases (x ∷ xs) ys (Memᴰ.head e) = inl (Memᴰ.head e)
  mem-append_cases (x ∷ xs) ys (Memᴰ.tail m) = elim (mem-append_cases xs ys m) [
    | inl l ↦ inl (Memᴰ.tail l)
    | inr r ↦ inr r
  ]

module _ {A B : Type 0} (f : A → B) where
  pub mem-map : {a : A} (xs : List A) → Memᴰ a xs → Memᴰ (f a) (map f xs)
  mem-map [] m = elim m [ ]
  mem-map (x ∷ xs) (Memᴰ.head e) = Memᴰ.head (ap f e)
  mem-map (x ∷ xs) (Memᴰ.tail m) = Memᴰ.tail (mem-map xs m)

  pub mem-map_cases : {b : B} (xs : List A) → Memᴰ b (map f xs) → (a : A) × Memᴰ a xs × (b ≡ f a)
  mem-map_cases [] m = elim m [ ]
  mem-map_cases (x ∷ xs) (Memᴰ.head e) = (x, Memᴰ.head refl, e)
  mem-map_cases (x ∷ xs) (Memᴰ.tail m) = let (a, k, e) = mem-map_cases xs m in (a, Memᴰ.tail k, e)

module _ {A B : Type 0} (f : A → List B) where
  pub mem-flat_map_cases :
      {b : B} (xs : List A) → Memᴰ b (flat_map f xs) → (a : A) × Memᴰ a xs × Memᴰ b (f a)
  mem-flat_map_cases [] m = elim m [ ]
  mem-flat_map_cases (x ∷ xs) m = elim (mem-append_cases (f x) (flat_map f xs) m) [
    | inl k ↦ (x, Memᴰ.head refl, k)
    | inr k ↦ let (a, l, h) = mem-flat_map_cases xs k in (a, Memᴰ.tail l, h)
  ]
