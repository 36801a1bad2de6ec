-- ===== src/Session/Keeps.antt =====
-- Properties of the database that an action keeps, one rule for each way to build an action.
use modular_monolith.Prelude.{◌≡◌, Bool, true, false, if◌then◌else◌, sym, subst}
use modular_monolith.Failure.{Error, Result, ok, err}
use modular_monolith.Tables.{Db}
use modular_monolith.Session.{World, M, continue, relabel, ◌>>=◌, map_error, pure, fail, statement}
use modular_monolith.Session.Atomic.{statement-KeepsDb}
use modular_monolith.Session.Transactions.{KeepsDb}

module _ {P : Db → Type 0} where
  pub Keeps-pure : {A : Type 0} (a : A) → KeepsDb P (pure a)
  Keeps-pure a = record { at = λ w h. h }

  pub Keeps-fail : {A : Type 0} (e : Error) → KeepsDb P (fail {A = A} e)
  Keeps-fail e = record { at = λ w h. h }

  -- An action that returns the database that it was given.
  pub Keeps-unchanged : {A : Type 0} (m : M A) → ((w : World) → (m w).1.db ≡ w.db) → KeepsDb P m
  Keeps-unchanged m same = record { at = λ w h. subst P (sym (same w)) h }

  pub Keeps-statement : {A : Type 0} (run : M A) → KeepsDb P run → KeepsDb P (statement run)
  Keeps-statement run keep = record {
    at = λ w h. statement-KeepsDb run w P (λ rs. keep.at (record w { replies = rs }) h) h;
  }

  pub Keeps-bind :
      {A B : Type 0} (m : M A) (f : A → M B)
      → KeepsDb P m
      → ((a : A) → KeepsDb P (f a))
      → KeepsDb P (m >>= f)
  Keeps-bind {A} m f km kf = record { at = λ w h. resume (m w) (km.at w h) }
    where
      resume : (x : Result A × World) → P x.1.db → P (continue f x).1.db
      resume (ok a, w') k = (kf a).at w' k
      resume (err e, w') k = k

  pub Keeps-map_error :
      {A : Type 0} (g : Error → Error) (m : M A) → KeepsDb P m → KeepsDb P (map_error g m)
  Keeps-map_error {A} g m km = record { at = λ w h. rename (m w) (km.at w h) }
    where
      rename : (x : Result A × World) → P x.1.db → P (relabel g x).1.db
      rename (ok a, w') k = k
      rename (err e, w') k = k

  pub Keeps-if :
      {A : Type 0} (b : Bool) (m n : M A)
      → KeepsDb P m
      → KeepsDb P n
      → KeepsDb P (if b then m else n)
  Keeps-if true m n km kn = km
  Keeps-if false m n km kn = kn

pub ruleset keeps_rules =
    (Keeps-pure, Keeps-fail, Keeps-statement, Keeps-bind, Keeps-map_error, Keeps-if)
