-- ===== src/Tests/Runtime.antt =====
-- The theorems on rate limits, the provider's keys and the configuration at concrete inputs.
use modular_monolith.Prelude.{
  ℕ, ◌-◌, String, ◌==◌, ◌≡◌, ◌≢◌, ◌↔◌, ◌⊎◌, refl, Bool, true, false, List, [], ◌∷◌, Option, some,
  none, arith, ltb, if◌then◌else◌,
}
use modular_monolith.Prelude.Int.{pos}
use modular_monolith.Failure.{Result, ok}
use modular_monolith.Oidc.Keys.{Jwk, PublicKey}
use modular_monolith.Oidc.Keys.Published.{Call, cache_after, IsPublished, key-IsPublished}
use modular_monolith.RateLimit.{
  Limiter, Event, request, cleanup, decisions, no_visitors, stale_timeout,
}
use modular_monolith.RateLimit.Refinement.{Refills, ideal_decisions, decisions-ideal}
use modular_monolith.Config.{Config, validate, load, load_secrets}
use modular_monolith.Config.Checks.{IsComplete, validate_iff, load-IsComplete}

-- A limiter that allows a request a minute after the one before.
allow_after : ℕ → Option ℕ → Bool × Option ℕ
allow_after now none = (true, some now)
allow_after now (some last) = (ltb 60000000000 (now - last), some now)

abbrev a_minute : Limiter
unfolding allow_after
a_minute = record { State = Option ℕ; fresh = none; allow = allow_after }

a_minute-Refills : Refills a_minute
unfolding a_minute allow_after
a_minute-Refills none used later h = ground arith
a_minute-Refills (some last) used later h = ground arith

-- Two requests in the same minute, a cleanup after four, and one more request.
abbrev events : List Event
events =
    request "10.0.0.1" 1000000000
    ∷ request "10.0.0.1" 2000000000
    ∷ cleanup 240000000000
    ∷ request "10.0.0.1" 250000000000
    ∷ []

decisions-ideal_example :
    decisions a_minute events (no_visitors a_minute)
    ≡ ideal_decisions a_minute events (λ key. a_minute.fresh)
decisions-ideal_example = decisions-ideal a_minute events a_minute-Refills (omega arith)

the_second_is_refused : decisions a_minute events (no_visitors a_minute) ≡ true ∷ false ∷ true ∷ []
unfolding decisions a_minute allow_after modular_monolith.RateLimit.allow_visitor
    modular_monolith.RateLimit.sweep
the_second_is_refused = refl

abbrev three_bytes : String → Result (List ℕ)
three_bytes s = ok (1 ∷ 0 ∷ 1 ∷ [])

abbrev signing_key : Jwk
signing_key = record { kid = "k"; kty = "RSA"; alg = "RS256"; use_of = "sig"; n = "n"; e = "AQAB" }

abbrev key_of_signing : PublicKey
key_of_signing = record { modulus = 65537; exponent = pos 65537 }

abbrev first_call : Call
first_call = record { kid = "k"; now = 5; fetched_at = 5; answer = ok (signing_key ∷ []) }

abbrev second_call : Call
second_call = record { kid = "k"; now = 6; fetched_at = 7; answer = ok [] }

-- The second call is answered from the cache.
key-IsPublished_example : IsPublished three_bytes second_call key_of_signing (first_call ∷ [])
unfolding modular_monolith.Oidc.Keys.key cache_after modular_monolith.Oidc.Keys.new_jwks_cache
key-IsPublished_example =
    key-IsPublished three_bytes second_call (first_call ∷ []) key_of_signing refl

-- Production without DODO_BASE_URL.
abbrev environment : String → String
environment name =
    if name == "APP_ENV"
    then "production"
    else if name == "CORS_ORIGIN"
    then "https://app"
    else if name == "OIDC_REDIRECT_URL"
    then "https://app/callback"
    else if name == "DODO_BASE_URL"
    then ""
    else if name == "DEV_TOKEN_SECRET"
    then ""
    else if name == "SESSION_SECRET_FILE"
    then ""
    else if name == "SESSION_SECRET"
    then "0123456789012345678901234567890123456789"
    else "x"

abbrev no_files : String → Option String
no_files path = none

abbrev never : String → Bool
never s = false

abbrev loaded : Config
unfolding modular_monolith.Config.config_of load_secrets
loaded = modular_monolith.Config.config_of never (load_secrets no_files environment)

validate_iff_example : (validate loaded ≡ ok tt) ↔ IsComplete loaded
validate_iff_example = validate_iff loaded

load-IsComplete_example :
    IsComplete loaded
    × ((load_secrets no_files environment "DODO_BASE_URL" ≢ "")
        ⊎ (loaded.payments.dodo_base_url ≡ "https://test.dodopayments.com"))
unfolding load validate modular_monolith.Config.config_of
    modular_monolith.Config.validate_production modular_monolith.Prelude.has_prefix
    modular_monolith.Prelude.contains_text
load-IsComplete_example = load-IsComplete never no_files environment loaded refl
