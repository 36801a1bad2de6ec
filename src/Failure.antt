-- ===== src/Failure.antt =====
-- Go error values: the sentinels of every module, what the Postgres driver returns, and wrapping
-- (internal/modules/*/errors.go and service.go, pkg/errors).
use modular_monolith.Prelude.{◌≡◌, refl, Bool, false, true, String, ◌⊎◌, inl, inr, arith}

-- `errors.New` values that callers compare with `errors.Is`.
pub data Sentinel : Type 0 where
  role_already_exists role_not_found user_role_not_found user_role_exists : Sentinel
  unknown_permissions : Sentinel
  subscription_already_exists invalid_subscription subscription_not_found : Sentinel
  invitation_not_found invitation_expired email_mismatch already_accepted invalid_role : Sentinel
  already_onboarded identity_not_found membership_not_found : Sentinel
  organization_already_exists user_already_exists : Sentinel

-- Two Go packages declare a type `PgError`: `jackc/pgconn` and `jackc/pgx/v5/pgconn`.
pub data PgPackage : Type 0 where
  pgconn_v1 pgx_v5 : PgPackage

pub data Error : Type 0 where
  sentinel : Sentinel → Error
  no_rows : Error
  pg_error : (library : PgPackage) (code constraint : String) → Error
  message : String → Error
  wrap : String → Error → Error

pub data Result {ℓ} (A : Type ℓ) : Type ℓ where
  ok : A → Result A
  err : Error → Result A

module _ {B : Type 0} where
  -- `if err != nil { return change(err) }`
  abbrev pub on_error : (Error → Error) → Result B → Result B
  on_error change (err e) = err (change e)
  on_error change (ok value) = ok value

-- `if !test { return failure }`
abbrev pub require : Bool → Error → Result (Unit {0})
require false failure = err failure
require true failure = ok tt

module _ {A B : Type 0} where
  -- `value, err := call(); if err != nil { return err }`
  infixl 5 ◌>>=◌
  abbrev pub ◌>>=◌ : Result A → (A → Result B) → Result B
  err failure >>= next = err failure
  ok value >>= next = next value

module _ {B : Type 0} where
  -- The same for a call that returns an error alone.
  infixl 5 ◌>>◌
  abbrev pub ◌>>◌ : Result (Unit {0}) → Result B → Result B
  call >> rest = call >>= λ done. rest

unfoldable pub Sentinel-discrete : Discrete Sentinel
Sentinel-discrete = hlevel

-- `errors.Is(err, target)`, which looks through wrapping.
unfoldable pub errors_is : Error → Sentinel → Bool
unfolding Sentinel-discrete
errors_is (sentinel s) target = elim (Sentinel-discrete s target) [ yes _ ↦ true | no _ ↦ false ]
errors_is no_rows target = false
errors_is (pg_error _ _ _) target = false
errors_is (message _) target = false
errors_is (wrap _ e) target = errors_is e target

-- `errors.Is(err, pgx.ErrNoRows)`.
unfoldable pub is_no_rows : Error → Bool
is_no_rows no_rows = true
is_no_rows (wrap _ e) = is_no_rows e
is_no_rows (sentinel _) = false
is_no_rows (pg_error _ _ _) = false
is_no_rows (message _) = false

test_is : errors_is (wrap "x" (sentinel role_not_found)) role_not_found ≡ true
unfolding errors_is
test_is = refl

-- What a chain of fallible steps that succeeded went through.
module _ {A B : Type 0} where
  pub >>=-ok :
      (call : Result A) (next : A → Result B) {answer : B}
      → (call >>= next) ≡ ok answer
      → (value : A) × (call ≡ ok value) × (next value ≡ ok answer)
  >>=-ok (err failure) next h = absurd (ground (arith, h))
  >>=-ok (ok value) next h = (value, refl, h)

module _ {B : Type 0} where
  pub require-ok :
      (test : Bool) (e : Error) (m : Result B) {b : B}
      → (require test e >> m) ≡ ok b
      → (test ≡ true) × (m ≡ ok b)
  require-ok true e m h = (refl, h)
  require-ok false e m h = absurd (ground (arith, h))

  pub on_error-ok : (f : Error → Error) (m : Result B) {b : B} → on_error f m ≡ ok b → m ≡ ok b
  on_error-ok f (ok b) h = h
  on_error-ok f (err e) h = absurd (ground (arith, h))

  pub Result-cases : (m : Result B) → ((b : B) × (m ≡ ok b)) ⊎ ((e : Error) × (m ≡ err e))
  Result-cases (ok b) = inl (b, refl)
  Result-cases (err e) = inr (e, refl)
