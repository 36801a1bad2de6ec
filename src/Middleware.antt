-- ===== src/Middleware.antt =====
-- internal/middleware (cors.go, security.go, metricsauth.go, bodylimit.go, auth.go),
-- internal/auth/middleware.go, internal/modules/health and internal/modules/users/token.go.
use modular_monolith.Prelude.{
  ℕ, String, ◌==◌, Bool, not, List, [], ◌∷◌, ◌++◌, Option, none, some, if◌then◌else◌, has_prefix,
  drop_chars, split_at,
}
use modular_monolith.Failure.{Result, ok, err}
use modular_monolith.Session.{World, M}
use modular_monolith.Members.{Membership}
use modular_monolith.Oidc.{Claims}
use modular_monolith.Access.{IdentityContext, AuthenticatedUser, Context, Response, Handler, refuse}
use modular_monolith.Http.{Outcome, done, refused}

-- What a middleware does: it calls the next handler with these response headers set, or it answers.
pub data Passage : Type 0 where
  through : List (String × String) → Passage
  stopped : List (String × String) → ℕ → Passage

-- `CORS`
unfoldable pub cors : String → String → Passage
cors allowed_origin method =
    let headers =
      ("Access-Control-Allow-Origin", allowed_origin)
      ∷ ("Access-Control-Allow-Methods", "GET, POST, PATCH, DELETE, OPTIONS")
      ∷ ("Access-Control-Allow-Headers", "Authorization, Content-Type")
      ∷ ("Access-Control-Allow-Credentials", "true")
      ∷ ("Access-Control-Max-Age", "86400")
      ∷ [] in
    if allowed_origin == ""
    then through []
    else if method == "OPTIONS"
    then stopped headers 204
    else through headers

-- `Security`
unfoldable pub security : Bool → Passage
security is_development =
    let headers =
      ("X-Content-Type-Options", "nosniff")
      ∷ ("X-Frame-Options", "DENY")
      ∷ ("Referrer-Policy", "strict-origin-when-cross-origin")
      ∷ ("Permissions-Policy", "camera=(), microphone=(), geolocation=()")
      ∷ (
        "Content-Security-Policy",
        "default-src 'self'; script-src 'self'; style-src 'self' 'unsafe-inline'; img-src 'self' data:; font-src 'self'; connect-src 'self'; frame-ancestors 'none'",
      )
      ∷ [] in
    if is_development
    then through headers
    else through (
        headers
        ++ ("Strict-Transport-Security", "max-age=63072000; includeSubDomains; preload") ∷ [])

-- `MetricsAuth`, for the text of the Authorization header, empty where it is missing.
unfoldable pub metrics_auth : String → String → Passage
metrics_auth token header =
    if token == ""
    then through []
    else if not (has_prefix header "Bearer ")
    then stopped [] 401
    else if drop_chars 7 header == token
    then through []
    else stopped [] 401

-- `BodyLimitError`: nil where the error is another one, or none.
unfoldable pub body_limit_error : Option String → Option Response
body_limit_error none = none
body_limit_error (some text) =
    if text == "http: request body too large"
    then some (record { status = 413; message = "request body too large" })
    else none

-- `MockAuth`
unfoldable pub mock_auth : Handler → Handler
mock_auth next c = next (record c {
  user =
      some
        (record { user_id = "user-123"; organization_id = "org-456"; email = "test@example.com" });
})

-- `strings.Split(header, " ")` has two parts, and the second is the token.
abbrev token_of : List String → Option String
token_of [] = none
token_of (scheme ∷ []) = none
token_of (scheme ∷ (token ∷ [])) = some token
token_of (scheme ∷ (token ∷ (other ∷ rest))) = none

-- The resolvers may be nil.
pub record Resolvers : Type 0 where
  pub identity : Option (String → M IdentityContext)
  pub membership : Option (String → M Membership)

abbrev pub token_user : Claims → AuthenticatedUser
token_user c = record { user_id = c.user_id; organization_id = c.organization_id; email = c.email }

abbrev as_member :
    Handler → Context → AuthenticatedUser → Result Membership × World → Response × World
as_member next c user (err e, w) = next c w
as_member next c user (ok m, w) =
    next (record c { membership = some m; user = some (record user { user_id = m.membership_id }) })
      w

abbrev resolve_member :
    Option (String → M Membership)
    → Handler
    → Context
    → AuthenticatedUser
    → Result IdentityContext × World
    → Response × World
resolve_member resolver next c user (err e, w) = next c w
resolve_member none next c user (ok i, w) = next (record c { identity = some i }) w
resolve_member (some resolver) next c user (ok i, w) =
    as_member next (record c { identity = some i }) user (resolver i.identity_id w)

-- Identity and membership are resolved where that succeeds.
abbrev resolve_identity_of :
    Resolvers
    → Handler
    → Context
    → AuthenticatedUser
    → Option (String → M IdentityContext)
    → World
    → Response × World
resolve_identity_of rs next c user none w = next c w
resolve_identity_of rs next c user (some resolver) w =
    resolve_member rs.membership next c user (resolver user.user_id w)

abbrev with_claims : Resolvers → Handler → Context → Result Claims → World → Response × World
with_claims rs next c (err e) w = refuse 400 "invalid token" w
with_claims rs next c (ok claims) w =
    let user = token_user claims in
    resolve_identity_of rs next (record c { user = some user }) user rs.identity w

abbrev with_token :
    (String → Result Claims)
    → Resolvers
    → Handler
    → Context
    → Option String
    → World
    → Response × World
with_token validate rs next c none w = refuse 400 "invalid authorization header" w
with_token validate rs next c (some token) w = with_claims rs next c (validate token) w

-- `auth.Middleware`; the second argument is the text of the Authorization header.
unfoldable pub auth_middleware : (String → Result Claims) → String → Resolvers → Handler → Handler
unfolding split_at
auth_middleware validate header rs next c w =
    if header == ""
    then refuse 400 "missing authorization header" w
    else with_token validate rs next c (token_of (split_at b' ' header)) w

-- `Live` and `Ready`; the argument is what the ping of the database gives.
unfoldable pub live : Outcome String
live = done 200 "ok"

unfoldable pub ready : Result (Unit {0}) → Outcome String
ready (ok u) = done 200 "ready"
ready (err e) = done 503 "not_ready"

-- `users.GenerateToken`; the argument signs a token for the fixed test user.
unfoldable pub generate_token_handler : (String → String → String → Result String) → Outcome String
generate_token_handler sign = elim (sign "user-123" "org-456" "test@example.com") [
  | ok token ↦ done 200 token
  | err e ↦ refused 500 "failed to generate token"
]
