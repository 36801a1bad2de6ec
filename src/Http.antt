-- ===== src/Http.antt =====
-- pkg/response, pkg/validator and the values that handlers take from the request's context
-- (internal/context): what a handler answers, before it is encoded as JSON. A decoded body is an
-- argument of the handlers, an error where `Decode` fails.
use modular_monolith.Prelude.{
  ℕ, String, ◌==◌, List, [], ◌∷◌, ◌++◌, Option, none, some, if◌then◌else◌, any, trim_space,
  contains_text, joined,
}
use modular_monolith.Failure.{Error, Result, ok, err}
use modular_monolith.Session.{World}
use modular_monolith.Access.{AuthenticatedUser, Context, Response, Handler}

-- `Success` with a payload, `Error` with a message, `ValidationError` with a message for each field.
pub data Outcome (A : Type 0) : Type 0 where
  done : ℕ → A → Outcome A
  refused : ℕ → String → Outcome A
  invalid : List (String × String) → Outcome A

abbrev pub Serve : Type 0 → Type 0
Serve A = Context → World → Outcome A × World

module _ {A : Type 0} where
  abbrev pub status_of : Outcome A → ℕ
  status_of (done status a) = status
  status_of (refused status text) = status
  status_of (invalid errors) = 400

  abbrev pub message_of : Outcome A → String
  message_of (done status a) = ""
  message_of (refused status text) = text
  message_of (invalid errors) = "validation failed"

  abbrev pub respond : Outcome A × World → Response × World
  respond (x, w) = (record { status = status_of x; message = message_of x }, w)

  -- The handler of a route.
  abbrev pub serve : Serve A → Handler
  serve s c w = respond (s c w)

  abbrev pub refuse_with : ℕ → String → World → Outcome A × World
  refuse_with status text w = (refused status text, w)

  -- `appcontext.GetOrganizationID`
  abbrev pub in_organization :
      Option String → (String → World → Outcome A × World) → World → Outcome A × World
  in_organization none run w = refuse_with 500 "organization context missing" w
  in_organization (some organization_id) run w = run organization_id w

  -- `appcontext.GetAuthenticatedUser`
  abbrev pub as_user :
      Option AuthenticatedUser
      → (AuthenticatedUser → World → Outcome A × World)
      → World
      → Outcome A × World
  as_user none run w = refuse_with 500 "authenticated user missing" w
  as_user (some user) run w = run user w

  abbrev pub with_body :
      {B : Type 0} → Result B → (B → World → Outcome A × World) → World → Outcome A × World
  with_body (err e) run w = refuse_with 400 "invalid request body" w
  with_body (ok b) run w = run b w

  -- The answer to what a service returns.
  abbrev pub answer :
      {B : Type 0} → (B → Outcome A) → (Error → Outcome A) → Result B × World → Outcome A × World
  answer good bad (ok b, w) = (good b, w)
  answer good bad (err e, w) = (bad e, w)

-- `validator.AddError`: the first error of a field stays.
abbrev pub add_error : String → String → List (String × String) → List (String × String)
add_error field text errors =
    if any (λ (e : String × String). e.0 == field) errors
    then errors
    else errors ++ (field, text) ∷ []

unfoldable pub required : String → String → List (String × String) → List (String × String)
required field value errors =
    if trim_space value == "" then add_error field (joined field " is required") errors else errors

unfoldable pub email_field : String → String → List (String × String) → List (String × String)
email_field field value errors =
    if contains_text value "@" then errors else add_error field "invalid email format" errors

-- `Validate`: nil where there is no error.
abbrev pub validated :
    {A : Type 0} → List (String × String) → (World → Outcome A × World) → World → Outcome A × World
validated [] run w = run w
validated (e ∷ errors) run w = (invalid (e ∷ errors), w)
