-- ===== src/Authflow/Handler.antt =====
-- internal/modules/authflow/handler.go: login, callback, logout and the session's user. The OAuth
-- provider and the token's validation are interfaces of the Go code and parameters here; so are
-- the identity service and the membership checker, which may be nil.
pub mod Verified
pub mod Landing
pub mod Signin
pub mod Completion
use modular_monolith.Prelude.{
  ℕ, String, ◌==◌, Bool, true, false, not, ◌&&◌, ◌||◌, ◌+◌, List, [], ◌∷◌, Option, none, some,
  if◌then◌else◌,
}
use modular_monolith.Prelude.Int.{ℤ, pos}
use modular_monolith.Failure.{Error, Result, ok, err, message, ◌>>=◌, ◌>>◌, require}
use modular_monolith.Session.{World, M}
use modular_monolith.Tables.{Identity}
use modular_monolith.Identities.{find_or_create_identity}
use modular_monolith.Members.{has_memberships}
use modular_monolith.Oidc.{Claims, AuthorizationRequest, TokenResponse}
use modular_monolith.Authflow.User.{SessionUser, normalize_user}
use modular_monolith.Authflow.Cookies.{
  Cookie, state_cookie_name, nonce_cookie_name, code_verifier_cookie_name, oauth_cookie,
  cleared_oauth_cookie, cookie_value, unix,
}
use modular_monolith.Authflow.Sessions.{
  Bytes, Session, Codec, SessionManager, set_session, get_session, clear_session, random_token,
  code_challenge,
}

-- `OAuthProvider` and `identity.Provider`
pub record OAuthProvider : Type 0 where
  pub authorization_url : AuthorizationRequest → Result String
  pub exchange_code : String → String → Result TokenResponse
  pub validate_token : String → Result Claims

pub record AuthHandler : Type 0 where
  pub oauth : OAuthProvider
  pub identity_service : Option (String → String → String → M String)
  pub membership_checker : Option (String → M Bool)
  pub codec : Codec
  pub sessions : SessionManager
  pub secure_cookies : Bool

-- What is written: the status, `Location`, `Set-Cookie` and the body.
pub record Answer : Type 0 where
  pub status : ℕ
  pub location : Option String
  pub cookies : List Cookie
  pub message : String
  pub user : Option SessionUser

abbrev pub refusal : ℕ → String → Answer
refusal status text = record {
  status = status;
  location = none;
  cookies = [];
  message = text;
  user = none;
}

abbrev pub redirect : String → List Cookie → Answer
redirect url cookies = record {
  status = 302;
  location = some url;
  cookies = cookies;
  message = "";
  user = none;
}

abbrev pub id_of_identity : Result Identity × World → Result String × World
id_of_identity (ok i, w) = (ok i.id, w)
id_of_identity (err e, w) = (err e, w)

-- `identityServiceAdapter.FindOrCreateIdentity` of the router
unfoldable pub identity_service : String → String → String → M String
identity_service zitadel_user_id email name w =
    id_of_identity (find_or_create_identity zitadel_user_id email name w)

-- The handler as the router builds it.
unfoldable pub new_handler : OAuthProvider → Codec → SessionManager → Bool → AuthHandler
new_handler oauth codec sessions secure_cookies = record {
  oauth = oauth;
  identity_service = some identity_service;
  membership_checker = some has_memberships;
  codec = codec;
  sessions = sessions;
  secure_cookies = secure_cookies;
}

-- The three tokens of a login.
pub record LoginTokens : Type 0 where
  pub state : String
  pub nonce : String
  pub code_verifier : String

abbrev pub authorization_request : Codec → LoginTokens → AuthorizationRequest
authorization_request codec t = record {
  state = t.state;
  nonce = t.nonce;
  code_challenge = code_challenge codec t.code_verifier;
  scope = "openid email profile";
}

unfoldable pub login_tokens :
    Codec → Result Bytes → Result Bytes → Result Bytes → Result LoginTokens
unfolding random_token
login_tokens codec random1 random2 random3 = do
  state ← random_token codec random1
  nonce ← random_token codec random2
  code_verifier ← random_token codec random3
  ok (record { state = state; nonce = nonce; code_verifier = code_verifier })

abbrev pub login_cookies : AuthHandler → ℕ → LoginTokens → List Cookie
login_cookies h now t =
    oauth_cookie h.secure_cookies now state_cookie_name t.state
    ∷ (oauth_cookie h.secure_cookies now nonce_cookie_name t.nonce
        ∷ (oauth_cookie h.secure_cookies now code_verifier_cookie_name t.code_verifier ∷ []))

abbrev login_answer : AuthHandler → ℕ → Result (LoginTokens × String) → Answer
login_answer h now (err e) = refusal 500 "failed to start login"
login_answer h now (ok (t, url)) = redirect url (login_cookies h now t)

abbrev login_start : AuthHandler → LoginTokens → Result (LoginTokens × String)
login_start h t = do url ← h.oauth.authorization_url (authorization_request h.codec t); ok (t, url)

-- The three arguments are what the source of randomness gives for the three tokens.
unfoldable pub login : AuthHandler → Result Bytes → Result Bytes → Result Bytes → ℕ → Answer
login h random1 random2 random3 now =
    login_answer h now (login_tokens h.codec random1 random2 random3 >>= login_start h)

-- The query and the cookies of a callback.
pub record CallbackRequest : Type 0 where
  pub code : String
  pub state : String
  pub cookies : List (String × String)

-- The checks of Callback up to the nonce. The step that failed is logged; the answer is the same.
unfoldable pub verified_claims : AuthHandler → CallbackRequest → Result Claims
unfolding cookie_value
verified_claims h r = do
  require (not (r.code == "" || r.state == "")) (message "missing_code_or_state")
  stored_state ← cookie_value state_cookie_name r.cookies
  require (stored_state == r.state) (message "state_mismatch")
  code_verifier ← cookie_value code_verifier_cookie_name r.cookies
  nonce ← cookie_value nonce_cookie_name r.cookies
  token ← h.oauth.exchange_code r.code code_verifier
  claims ← h.oauth.validate_token token.id_token
  require (claims.nonce == nonce) (message "nonce_mismatch")
  ok claims

abbrev with_identity_id : SessionUser → Result String × World → Result SessionUser × World
with_identity_id user (err e, w) = (err e, w)
with_identity_id user (ok id, w) = (ok (record user { identity_id = id }), w)

unfoldable pub identified :
    Option (String → String → String → M String) → SessionUser → M SessionUser
identified none user w = (ok user, w)
identified (some service) user w =
    with_identity_id user (service user.subject user.email user.name w)

-- `sessionTTL`
abbrev session_ttl : ℕ
session_ttl = 86400

abbrev pub expiry_of : Claims → ℕ → ℤ
expiry_of c now = elim c.expires_at [ some t ↦ t | none ↦ pos (unix now + session_ttl) ]

abbrev pub chosen : Result Bool × World → String × World
chosen (ok false, w) = ("/onboarding", w)
chosen (ok true, w) = ("/dashboard", w)
chosen (err e, w) = ("/dashboard", w)

abbrev by_claims : SessionUser → World → String × World
by_claims user w = (if user.organization_id == "" then "/onboarding" else "/dashboard", w)

-- By the memberships, or by the claims where no checker is configured or no identity is known.
unfoldable pub landing : Option (String → M Bool) → SessionUser → World → String × World
landing none user w = by_claims user w
landing (some checker) user w =
    if not (user.identity_id == "") then chosen (checker user.identity_id w) else by_claims user w

abbrev pub cleared_cookies : AuthHandler → List Cookie
cleared_cookies h =
    cleared_oauth_cookie h.secure_cookies state_cookie_name
    ∷ (cleared_oauth_cookie h.secure_cookies nonce_cookie_name
        ∷ (cleared_oauth_cookie h.secure_cookies code_verifier_cookie_name ∷ []))

abbrev pub redirected : AuthHandler → Cookie → String × World → Answer × World
redirected h c (url, w) = (redirect url (c ∷ cleared_cookies h), w)

abbrev pub with_session : AuthHandler → SessionUser → Result Cookie → World → Answer × World
with_session h user (err e) w = (refusal 500 "failed to create session", w)
with_session h user (ok c) w = redirected h c (landing h.membership_checker user w)

abbrev pub signed_in :
    AuthHandler → Result Bytes → Claims → Result SessionUser × World → Answer × World
signed_in h random claims (err e, w) = (refusal 500 "failed to authenticate", w)
signed_in h random claims (ok user, w) =
    with_session h user
      (set_session h.codec h.sessions random w.now
        (record { user = user; expires_at = expiry_of claims w.now }))
      w

abbrev pub callback_with : AuthHandler → Result Bytes → Result Claims → World → Answer × World
callback_with h random (err e) w = (refusal 400 "invalid auth callback", w)
callback_with h random (ok claims) w =
    signed_in h random claims (identified h.identity_service (normalize_user claims) w)

-- The second argument is what the source of randomness gives for the session's nonce.
unfoldable pub callback : AuthHandler → Result Bytes → CallbackRequest → World → Answer × World
callback h random r w = callback_with h random (verified_claims h r) w

unfoldable pub logout : AuthHandler → Answer
unfolding clear_session
logout h = record {
  status = 200;
  location = none;
  cookies = clear_session h.sessions ∷ [];
  message = "";
  user = none;
}

abbrev pub me_answer : Result Session → Answer
me_answer (err e) = refusal 401 "not authenticated"
me_answer (ok s) = record {
  status = 200;
  location = none;
  cookies = [];
  message = "";
  user = some s.user;
}

unfoldable pub me : AuthHandler → List (String × String) → ℕ → Answer
unfolding get_session
me h cookies now = me_answer (get_session h.codec h.sessions cookies now)
