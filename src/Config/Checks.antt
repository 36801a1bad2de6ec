-- ===== src/Config/Checks.antt =====
-- Which configurations start the program (validate.go and config.go).
use modular_monolith.Prelude.{
  String, ◌==◌, ◌≡◌, ◌≢◌, ◌↔◌, ◌⊎◌, inl, inr, refl, sym, subst, ap, ◌∙◌, Bool, true, false, not,
  ◌&&◌, Option, arith, eq_iff, ltb, len, ◌≤◌, has_prefix, contains_text, Bool-cases, if◌then◌else◌,
}
use modular_monolith.Failure.{Error, ok, require, require-ok, >>=-ok}
use modular_monolith.Config.{Config, validate_production, validate, load_secrets, config_of, load}

-- What production asks for on top.
pub record IsProductionReady (c : Config) : Type 0 where
  pub cors_origin : c.app.cors_origin ≢ ""
  pub metrics_token : c.metrics_token ≢ ""
  pub dodo_base_url : c.payments.dodo_base_url ≢ ""
  pub own_secret : has_prefix c.auth.session_secret "change-me" ≡ false
  pub no_dev_token : c.auth.dev_token_secret ≡ ""
  pub secure_redirect : has_prefix c.auth.oidc_redirect_url "https://" ≡ true
  pub secure_origin : has_prefix c.app.cors_origin "https://" ≡ true
  pub secure_database : contains_text c.database_url "sslmode=disable" ≡ false
  pub secure_telemetry : (c.otel.enabled ≡ false) ⊎ (c.otel.insecure ≡ false)

pub record IsComplete (c : Config) : Type 0 where
  pub server_port : c.server_port ≢ ""
  pub database_url : c.database_url ≢ ""
  pub env : c.app.env ≢ ""
  pub oidc_issuer : c.auth.oidc_issuer ≢ ""
  pub oidc_audience : c.auth.oidc_audience ≢ ""
  pub oidc_client_id : c.auth.oidc_client_id ≢ ""
  pub oidc_redirect_url : c.auth.oidc_redirect_url ≢ ""
  pub long_secret : 32 ≤ len c.auth.session_secret
  pub dev_token : (c.app.env ≢ "development") ⊎ (c.auth.dev_token_secret ≢ "")
  pub dodo_api_key : c.payments.dodo_api_key ≢ ""
  pub webhook_secret : c.payments.webhook_secret ≢ ""
  pub production : (c.app.env ≢ "production") ⊎ IsProductionReady c

-- The test of a value that must be given.
given-ne : (value : String) → not (value == "") ≡ true → value ≢ ""
given-ne value h = ground (arith, h, eq_iff value "")

require-last : (test : Bool) (e : Error) → require test e ≡ ok tt → test ≡ true
require-last true e h = refl
require-last false e h = absurd (ground (arith, h))

both_false : (a b : Bool) → not (a && b) ≡ true → (a ≡ false) ⊎ (b ≡ false)
both_false true true h = absurd (ground (arith, h))
both_false true false h = inr refl
both_false false b h = inl refl

validate_production-IsProductionReady :
    (c : Config) → validate_production c ≡ ok tt → IsProductionReady c
unfolding validate_production
validate_production-IsProductionReady c h =
    let (a0, h0) = require-ok (not (c.app.cors_origin == "")) _ _ h in
    let (a1, h1) = require-ok (not (c.metrics_token == "")) _ _ h0 in
    let (a2, h2) = require-ok (not (c.payments.dodo_base_url == "")) _ _ h1 in
    let (a3, h3) = require-ok (not (has_prefix c.auth.session_secret "change-me")) _ _ h2 in
    let (a4, h4) = require-ok (c.auth.dev_token_secret == "") _ _ h3 in
    let (a5, h5) = require-ok (has_prefix c.auth.oidc_redirect_url "https://") _ _ h4 in
    let (a6, h6) = require-ok (has_prefix c.app.cors_origin "https://") _ _ h5 in
    let (a7, h7) = require-ok (not (contains_text c.database_url "sslmode=disable")) _ _ h6 in
    record {
      cors_origin = given-ne c.app.cors_origin a0;
      metrics_token = given-ne c.metrics_token a1;
      dodo_base_url = given-ne c.payments.dodo_base_url a2;
      own_secret = ground (arith, a3);
      no_dev_token = ground (arith, a4, eq_iff c.auth.dev_token_secret "");
      secure_redirect = a5;
      secure_origin = a6;
      secure_database = ground (arith, a7);
      secure_telemetry = both_false c.otel.enabled c.otel.insecure (require-last _ _ h7);
    }

IsProductionReady-validate_production :
    (c : Config) → IsProductionReady c → validate_production c ≡ ok tt
unfolding validate_production
IsProductionReady-validate_production c r = ground (
  arith,
  r.cors_origin,
  r.metrics_token,
  r.dodo_base_url,
  r.own_secret,
  r.no_dev_token,
  r.secure_redirect,
  r.secure_origin,
  r.secure_database,
  r.secure_telemetry,
  eq_iff c.app.cors_origin "",
  eq_iff c.metrics_token "",
  eq_iff c.payments.dodo_base_url "",
  eq_iff c.auth.dev_token_secret "",
)

validate-IsComplete : (c : Config) → validate c ≡ ok tt → IsComplete c
unfolding validate
validate-IsComplete c h =
    let (a0, h0) = require-ok (not (c.server_port == "")) _ _ h in
    let (a1, h1) = require-ok (not (c.database_url == "")) _ _ h0 in
    let (a2, h2) = require-ok (not (c.app.env == "")) _ _ h1 in
    let (a3, h3) = require-ok (not (c.auth.oidc_issuer == "")) _ _ h2 in
    let (a4, h4) = require-ok (not (c.auth.oidc_audience == "")) _ _ h3 in
    let (a5, h5) = require-ok (not (c.auth.oidc_client_id == "")) _ _ h4 in
    let (a6, h6) = require-ok (not (c.auth.oidc_redirect_url == "")) _ _ h5 in
    let (a7, h7) = require-ok (not (c.auth.session_secret == "")) _ _ h6 in
    let (a8, h8) = require-ok (not (ltb (len c.auth.session_secret) 32)) _ _ h7 in
    let (a9, h9) =
      require-ok (not (c.app.env == "development" && c.auth.dev_token_secret == "")) _ _ h8 in
    let (a10, h10) = require-ok (not (c.payments.dodo_api_key == "")) _ _ h9 in
    let (a11, h11) = require-ok (not (c.payments.webhook_secret == "")) _ _ h10 in
    record {
      server_port = given-ne c.server_port a0;
      database_url = given-ne c.database_url a1;
      env = given-ne c.app.env a2;
      oidc_issuer = given-ne c.auth.oidc_issuer a3;
      oidc_audience = given-ne c.auth.oidc_audience a4;
      oidc_client_id = given-ne c.auth.oidc_client_id a5;
      oidc_redirect_url = given-ne c.auth.oidc_redirect_url a6;
      long_secret = ground (arith, a8);
      dev_token =
          ground (arith, a9, eq_iff c.app.env "development", eq_iff c.auth.dev_token_secret "");
      dodo_api_key = given-ne c.payments.dodo_api_key a10;
      webhook_secret = given-ne c.payments.webhook_secret a11;
      production = elim (Bool-cases (c.app.env == "production")) [
        | inl live ↦ inr (validate_production-IsProductionReady c (ground (arith, live, h11)))
        | inr other ↦ inl (ground (arith, other, eq_iff c.app.env "production"))
      ];
    }

long_ne_empty : (s : String) → 32 ≤ len s → s ≢ ""
long_ne_empty s h e = absurd (ground (arith, ap len e, h))

given-eq : (value : String) → value ≢ "" → (value == "") ≡ false
given-eq value h = ground (arith, h, eq_iff value "")

not_both : (a b : Bool) → (a ≡ false) ⊎ (b ≡ false) → (a && b) ≡ false
not_both a b h = ground (arith, h)

-- The last test, for a configuration that is complete.
production-ok :
    (c : Config)
    → IsComplete c
    → (if c.app.env == "production" then validate_production c else ok tt) ≡ ok tt
production-ok c r = elim r.production [
  | inl other ↦ ground (arith, other, eq_iff c.app.env "production")
  | inr ready ↦ elim (Bool-cases (c.app.env == "production")) [
    | inl live ↦ rw live (IsProductionReady-validate_production c ready)
    | inr other ↦ rw other refl
  ]
]

IsComplete-validate : (c : Config) → IsComplete c → validate c ≡ ok tt
unfolding validate
IsComplete-validate c r =
    let secret : (c.auth.session_secret == "") ≡ false =
      elim (Bool-cases (c.auth.session_secret == "")) [
        | inl empty ↦ absurd (
            long_ne_empty c.auth.session_secret r.long_secret
              (ground (arith, empty, eq_iff c.auth.session_secret "")))
        | inr given ↦ given
      ] in
    let long : ltb (len c.auth.session_secret) 32 ≡ false = ground (arith, r.long_secret) in
    let dev : (c.app.env == "development" && c.auth.dev_token_secret == "") ≡ false =
      ground
        (arith, r.dev_token, eq_iff c.app.env "development", eq_iff c.auth.dev_token_secret "") in
    rw (given-eq c.server_port r.server_port) (
      rw (given-eq c.database_url r.database_url) (
        rw (given-eq c.app.env r.env) (
          rw (given-eq c.auth.oidc_issuer r.oidc_issuer) (
            rw (given-eq c.auth.oidc_audience r.oidc_audience) (
              rw (given-eq c.auth.oidc_client_id r.oidc_client_id) (
                rw (given-eq c.auth.oidc_redirect_url r.oidc_redirect_url) (
                  rw secret (
                    rw long (
                      rw dev (
                        rw (given-eq c.payments.dodo_api_key r.dodo_api_key) (
                          rw (given-eq c.payments.webhook_secret r.webhook_secret)
                            (production-ok c r))))))))))))

-- The program's validation accepts a configuration exactly if it is complete: the required values
-- are there, the session secret has 32 bytes or more, development has a secret for its tokens, and
-- production has its own values, no development secret, https and no insecure connection.
pub validate_iff : (c : Config) → (validate c ≡ ok tt) ↔ IsComplete c
validate_iff c = (validate-IsComplete c, IsComplete-validate c)

-- A configuration that was loaded is complete. Where DODO_BASE_URL is not set it names the
-- provider's test system, in production too, since the default is filled in before the validation.
pub load-IsComplete :
    (bool : String → Bool) (read_file : String → Option String) (env : String → String) (c : Config)
    → load bool read_file env ≡ ok c
    → IsComplete c
      × ((load_secrets read_file env "DODO_BASE_URL" ≢ "")
          ⊎ (c.payments.dodo_base_url ≡ "https://test.dodopayments.com"))
unfolding load config_of
load-IsComplete bool read_file env c h =
    let d = config_of bool (load_secrets read_file env) in
    let (u, valid, e) = >>=-ok (validate d) _ h in
    let is : d ≡ c = ground (arith, e) in
    (
      subst IsComplete is (validate-IsComplete d valid),
      elim (Bool-cases (load_secrets read_file env "DODO_BASE_URL" == "")) [
        | inl unset ↦ inr (ap (λ (x : Config). x.payments.dodo_base_url) (sym is) ∙ rw unset refl)
        | inr set ↦
            inl (ground (arith, set, eq_iff (load_secrets read_file env "DODO_BASE_URL") ""))
      ],
    )
