-- ===== src/Authflow/Cookies.antt =====
-- The cookies of internal/modules/authflow: `http.Cookie` with the fields that session.go and
-- handler.go set, and what the browser sends back.
use modular_monolith.Prelude.{
  String, ◌==◌, Bool, true, List, [], ◌∷◌, ◌+◌, ◌/◌, if◌then◌else◌, map, ℕ,
}
use modular_monolith.Prelude.Int.{ℤ, pos, negsuc}
use modular_monolith.Failure.{Result, ok, err, message}

pub data SameSite : Type 0 where
  default_mode lax strict cross_site : SameSite

-- `Expires`, to the second.
pub record Cookie : Type 0 where
  pub name : String
  pub value : String
  pub path : String
  pub expires : ℤ
  pub max_age : ℤ
  pub http_only : Bool
  pub secure : Bool
  pub same_site : SameSite

abbrev pub session_cookie_name : String
session_cookie_name = "mm_session"

abbrev pub state_cookie_name : String
state_cookie_name = "mm_oauth_state"

abbrev pub nonce_cookie_name : String
nonce_cookie_name = "mm_oauth_nonce"

abbrev pub code_verifier_cookie_name : String
code_verifier_cookie_name = "mm_oauth_code_verifier"

-- The clock counts nanoseconds; `Time.Unix` counts seconds.
unfoldable pub unix : ℕ → ℕ
unix now = now / 1000000000

-- `oauthCookieTTL`
abbrev oauth_cookie_ttl : ℕ
oauth_cookie_ttl = 600

unfoldable pub oauth_cookie : Bool → ℕ → String → String → Cookie
unfolding unix
oauth_cookie secure now name value = record {
  name = name;
  value = value;
  path = "/api/v1/auth";
  expires = pos (unix now + oauth_cookie_ttl);
  max_age = pos oauth_cookie_ttl;
  http_only = true;
  secure = secure;
  same_site = lax;
}

unfoldable pub cleared_oauth_cookie : Bool → String → Cookie
cleared_oauth_cookie secure name = record {
  name = name;
  value = "";
  path = "/api/v1/auth";
  expires = pos 0;
  max_age = negsuc 0;
  http_only = true;
  secure = secure;
  same_site = lax;
}

-- `r.Cookie(name)`: the first cookie of the request with this name.
unfoldable pub cookie_value : String → List (String × String) → Result String
cookie_value name [] = err (message "http: named cookie not present")
cookie_value name ((n, v) ∷ cookies) =
    let rest = cookie_value name cookies in if n == name then ok v else rest

-- What a browser without other cookies sends after it received these.
abbrev pub sent_back : List Cookie → List (String × String)
sent_back = map (λ (c : Cookie). (c.name, c.value))
