-- ===== src/Tests/Login.antt =====
-- The theorems on sessions and the login at concrete inputs.
use modular_monolith.Prelude.{◌⊎◌, true, [], ◌∷◌}
use modular_monolith.Prelude.Int.{pos}
use modular_monolith.Failure.{ok}
use modular_monolith.Session.{World}
use modular_monolith.Authflow.Cookies.{Cookie, lax, session_cookie_name}
use modular_monolith.Authflow.Sessions.{Bytes, Session}
use modular_monolith.Authflow.Handler.{
  AuthHandler, Answer, LoginTokens, CallbackRequest, new_handler, login, callback, expiry_of,
}
use modular_monolith.Authflow.Handler.Signin.{NotSignedIn, SignedIn, callback_cases}
use modular_monolith.Authflow.Handler.Completion.{returning}
use modular_monolith.Tests.World.{start}
use modular_monolith.Tests.Crypto.{codec, manager, oauth}

abbrev cookie : Cookie
cookie = record {
  name = session_cookie_name;
  value = "I.I.IIIIIII.I.";
  path = "/";
  expires = pos 3600;
  max_age = pos 3599;
  http_only = true;
  secure = true;
  same_site = lax;
}

abbrev handler : AuthHandler
unfolding new_handler
handler = new_handler oauth codec manager true

-- Alice comes back from the provider with the cookies of her login.
abbrev comes_back : CallbackRequest
comes_back = record {
  code = "code";
  state = ".";
  cookies =
      ("mm_oauth_state", ".") ∷ ("mm_oauth_nonce", "I.") ∷ ("mm_oauth_code_verifier", "II.") ∷ [];
}

callback_cases_example :
    NotSignedIn start
      (callback (new_handler oauth codec manager true) (ok (1 ∷ 1 ∷ [])) comes_back start)
    ⊎ SignedIn oauth codec manager
        (ok (1 ∷ 1 ∷ []))
        comes_back
        start
        (callback (new_handler oauth codec manager true) (ok (1 ∷ 1 ∷ [])) comes_back start)
callback_cases_example = callback_cases oauth codec manager true (ok (1 ∷ 1 ∷ [])) comes_back start

abbrev tokens : LoginTokens
tokens = record { state = "."; nonce = "I."; code_verifier = "II." }

abbrev start_login : Answer
unfolding new_handler login
start_login =
    login (new_handler oauth codec manager true) (ok (0 ∷ [])) (ok (1 ∷ [])) (ok (2 ∷ [])) 5

abbrev end_login : Answer × World
unfolding new_handler login callback
end_login =
    callback (new_handler oauth codec manager true) (ok (1 ∷ 1 ∷ []))
      (returning (new_handler oauth codec manager true) tokens 5 "code" start_login.cookies) start
