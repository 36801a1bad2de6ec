-- ===== src/Authflow/Handler/Verified.antt =====
-- What the checks of Callback say about the login that they accept (handler.go).

use modular_monolith.Prelude.{String, ◌==◌, ◌≡◌, ap, ◌∙◌, false, not, ◌||◌, arith, eq_iff}
use modular_monolith.Failure.{ok, >>=-ok, require-ok}
use modular_monolith.Oidc.{Claims, TokenResponse}
use modular_monolith.Authflow.Cookies.{
  state_cookie_name, nonce_cookie_name, code_verifier_cookie_name, cookie_value,
}
use modular_monolith.Authflow.Handler.{OAuthProvider, AuthHandler, CallbackRequest, verified_claims}

-- The callback belongs to a login of this browser: the state is that of its cookie, the provider
-- exchanged the code with the verifier of its cookie, and the ID token is valid and has the nonce
-- of its cookie.
pub record Verified (oauth : OAuthProvider) (r : CallbackRequest) (c : Claims) : Type 0 where
  pub has_code : (r.code == "") ≡ false
  pub has_state : (r.state == "") ≡ false
  pub same_state : cookie_value state_cookie_name r.cookies ≡ ok r.state
  pub code_verifier : String
  pub verifier : cookie_value code_verifier_cookie_name r.cookies ≡ ok code_verifier
  pub token : TokenResponse
  pub exchanged : oauth.exchange_code r.code code_verifier ≡ ok token
  pub validated : oauth.validate_token token.id_token ≡ ok c
  pub same_nonce : cookie_value nonce_cookie_name r.cookies ≡ ok c.nonce

pub verified_claims-Verified :
    (h : AuthHandler) (r : CallbackRequest) (c : Claims)
    → verified_claims h r ≡ ok c
    → Verified h.oauth r c
unfolding verified_claims
verified_claims-Verified h r c e =
    let (given, e1) = require-ok (not (r.code == "" || r.state == "")) _ _ e in
    let (stored, s, e2) = >>=-ok (cookie_value state_cookie_name r.cookies) _ e1 in
    let (same, e3) = require-ok (stored == r.state) _ _ e2 in
    let (verifier, v, e4) = >>=-ok (cookie_value code_verifier_cookie_name r.cookies) _ e3 in
    let (nonce, n, e5) = >>=-ok (cookie_value nonce_cookie_name r.cookies) _ e4 in
    let (token, t, e6) = >>=-ok (h.oauth.exchange_code r.code verifier) _ e5 in
    let (claims, k, e7) = >>=-ok (h.oauth.validate_token token.id_token) _ e6 in
    let (equal, e8) = require-ok (claims.nonce == nonce) _ _ e7 in
    let is : claims ≡ c = ground (arith, e8) in
    record {
      has_code = ground (arith, given);
      has_state = ground (arith, given);
      same_state = s ∙ ap ok (ground (arith, same, eq_iff stored r.state));
      code_verifier = verifier;
      verifier = v;
      token = token;
      exchanged = t;
      validated = k ∙ ap ok is;
      same_nonce = n ∙ ap ok (ground (arith, equal, eq_iff claims.nonce nonce, is));
    }
