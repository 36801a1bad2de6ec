-- ===== src/Oidc/Provider.antt =====
-- internal/providers/identity: discovery (oidc.go), the OAuth calls (oauth.go) and the validation
-- of tokens (zitadel.go). The HTTP client with its JSON, URL encoding and the JWT library are
-- parameters.
use modular_monolith.Prelude.{
  ℕ, String, ◌==◌, not, ◌||◌, List, [], ◌∷◌, Option, none, some, if◌then◌else◌, joined,
  trim_slashes, nat_beq,
}
use modular_monolith.Failure.{Result, ok, err, message, wrap, ◌>>=◌, ◌>>◌, on_error, require}
use modular_monolith.Oidc.{Claims, AuthorizationRequest, TokenResponse}

pub record OidcConfig : Type 0 where
  pub issuer : String
  pub audience : String
  pub client_id : String
  pub redirect_url : String

pub record Discovery : Type 0 where
  pub issuer : String
  pub jwks_uri : String
  pub authorization_endpoint : String
  pub token_endpoint : String

-- The status of an answer, and its body if it can be decoded.
pub record HttpReply (A : Type 0) : Type 0 where
  pub status : ℕ
  pub body : Result A

-- `NewZitadelProvider`
unfoldable pub provider_config : OidcConfig → OidcConfig
provider_config c = record c { issuer = trim_slashes c.issuer }

-- `discoverOIDC`; `get` is the client's GET.
unfoldable pub discover_oidc : (String → Result (HttpReply Discovery)) → String → Result Discovery
discover_oidc get issuer = do
  reply ←
      on_error (wrap "fetch oidc discovery")
        (get (joined (trim_slashes issuer) "/.well-known/openid-configuration"))
  require (nat_beq reply.status 200) (message "fetch oidc discovery: unexpected status")
  d ← on_error (wrap "decode oidc discovery") reply.body
  require (not (d.issuer == "" || d.jwks_uri == ""))
      (message "oidc discovery missing issuer or jwks_uri")
  ok d

abbrev fetched_discovery : Result Discovery → Result Discovery × Option Discovery
fetched_discovery (err e) = (err e, none)
fetched_discovery (ok d) = (ok d, some d)

-- `getDiscovery`: the document is fetched until it was found once, and kept.
unfoldable pub get_discovery :
    (String → Result (HttpReply Discovery))
    → OidcConfig
    → Option Discovery
    → Result Discovery × Option Discovery
unfolding discover_oidc
get_discovery get c (some d) = (ok d, some d)
get_discovery get c none = fetched_discovery (do
  d ← discover_oidc get c.issuer
  require (d.issuer == c.issuer) (message "oidc issuer mismatch")
  ok d)

abbrev authorization_values : OidcConfig → AuthorizationRequest → List (String × String)
authorization_values c r =
    ("client_id", c.client_id)
    ∷ ("redirect_uri", c.redirect_url)
    ∷ ("response_type", "code")
    ∷ ("scope", r.scope)
    ∷ ("state", r.state)
    ∷ ("nonce", r.nonce)
    ∷ ("code_challenge", r.code_challenge)
    ∷ ("code_challenge_method", "S256")
    ∷ []

-- `AuthorizationURL`, with the discovery document at hand; `encode` is `url.Values.Encode`.
unfoldable pub authorization_url :
    (List (String × String) → String)
    → OidcConfig
    → Result Discovery
    → AuthorizationRequest
    → Result String
authorization_url encode c discovery r = do
  d ← on_error (wrap "oidc discovery failed") discovery
  require (not (d.authorization_endpoint == ""))
      (message "oidc discovery missing authorization_endpoint")
  ok (joined d.authorization_endpoint (joined "?" (encode (authorization_values c r))))

abbrev exchange_values : OidcConfig → String → String → List (String × String)
exchange_values c code code_verifier =
    ("grant_type", "authorization_code")
    ∷ ("code", code)
    ∷ ("redirect_uri", c.redirect_url)
    ∷ ("client_id", c.client_id)
    ∷ ("code_verifier", code_verifier)
    ∷ []

-- `ExchangeCode`; `post` is the client's POST of a form.
unfoldable pub exchange_code :
    (String → List (String × String) → Result (HttpReply TokenResponse))
    → OidcConfig
    → Result Discovery
    → String
    → String
    → Result TokenResponse
exchange_code post c discovery code code_verifier = do
  d ← on_error (wrap "oidc discovery failed") discovery
  require (not (d.token_endpoint == "")) (message "oidc discovery missing token_endpoint")
  reply ←
      on_error (wrap "exchange code") (post d.token_endpoint (exchange_values c code code_verifier))
  require (nat_beq reply.status 200) (message "exchange code: unexpected status")
  token ← on_error (wrap "decode token response") reply.body
  require (not (token.id_token == "")) (message "token response missing id_token")
  ok token

-- `UnmarshalJSON` and the end of ValidateToken: the subject stands for a missing user.
abbrev with_user_id : Claims → Claims
with_user_id c = record c { user_id = if c.user_id == "" then c.subject else c.user_id }

-- `ValidateToken`; `parse` is the JWT library's parser with the options of the code: RS256, the
-- issuer, the audience, an expiry, and the key function over the discovery's `jwks_uri`.
unfoldable pub validate_token :
    (String → String → String → String → Result Claims)
    → OidcConfig
    → Result Discovery
    → String
    → Result Claims
validate_token parse c discovery token = do
  d ← on_error (wrap "oidc discovery failed") discovery
  claims ← on_error (wrap "validate token") (parse d.jwks_uri c.issuer c.audience token)
  ok (with_user_id claims)
