-- ===== src/Authflow/Handler/Completion.antt =====
-- A login that the provider answers ends in a session (handler.go and session.go together).
use modular_monolith.Prelude.{ℕ, String, List}
use modular_monolith.Authflow.Cookies.{Cookie, sent_back}
use modular_monolith.Authflow.Sessions.{Session}
use modular_monolith.Authflow.Handler.{AuthHandler, LoginTokens, CallbackRequest}

module _ (h : AuthHandler) (t : LoginTokens) (started : ℕ) (code : String) where
  -- The browser comes back from the provider with the cookies that Login set.
  abbrev pub returning : List Cookie → CallbackRequest
  returning cookies = record { code = code; state = t.state; cookies = sent_back cookies }
