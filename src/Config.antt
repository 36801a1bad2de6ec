-- ===== src/Config.antt =====
-- internal/config: the configuration from the environment and its validation. The environment is a
-- function, as os.Getenv reads it after the `.env` file is loaded; reading a file and koanf's
-- reading of a Boolean are parameters.
pub mod Checks
use modular_monolith.Prelude.{
  ℕ, String, ◌==◌, Bool, not, ◌&&◌, ◌||◌, List, [], ◌∷◌, Option, none, some, if◌then◌else◌, ltb,
  len, any, joined, has_prefix, contains_text, trim_newlines,
}
use modular_monolith.Failure.{Error, Result, ok, err, message, ◌>>=◌, ◌>>◌, require}

pub record AppConfig : Type 0 where
  pub name : String
  pub env : String
  pub cors_origin : String

pub record AuthConfig : Type 0 where
  pub oidc_issuer : String
  pub oidc_audience : String
  pub oidc_client_id : String
  pub oidc_redirect_url : String
  pub session_secret : String
  pub dev_token_secret : String

pub record PaymentConfig : Type 0 where
  pub dodo_api_key : String
  pub webhook_secret : String
  pub dodo_base_url : String

pub record OtelConfig : Type 0 where
  pub enabled : Bool
  pub service_name : String
  pub endpoint : String
  pub insecure : Bool

-- The server, database and metrics parts have one field each.
pub record Config : Type 0 where
  pub app : AppConfig
  pub server_port : String
  pub database_url : String
  pub auth : AuthConfig
  pub payments : PaymentConfig
  pub otel : OtelConfig
  pub metrics_token : String

abbrev given : String → String → Result (Unit {0})
given value text = require (not (value == "")) (message text)

unfoldable pub validate_production : Config → Result (Unit {0})
validate_production c = do
  given c.app.cors_origin "CORS_ORIGIN is required in production"
  given c.metrics_token "METRICS_TOKEN is required in production"
  given c.payments.dodo_base_url "DODO_BASE_URL is required in production"
  require (not (has_prefix c.auth.session_secret "change-me"))
      (message "SESSION_SECRET must not use the default placeholder in production")
  require (c.auth.dev_token_secret == "") (message "DEV_TOKEN_SECRET must not be set in production")
  require (has_prefix c.auth.oidc_redirect_url "https://")
      (message "OIDC_REDIRECT_URL must use https:// in production")
  require (has_prefix c.app.cors_origin "https://")
      (message "CORS_ORIGIN must use https:// in production")
  require (not (contains_text c.database_url "sslmode=disable"))
      (message "DATABASE_URL must not use sslmode=disable in production")
  require (not (c.otel.enabled && c.otel.insecure))
      (message "OTEL_EXPORTER_OTLP_INSECURE must be false in production")

-- `len` counts bytes.
unfoldable pub validate : Config → Result (Unit {0})
validate c = do
  given c.server_port "SERVER_PORT is required"
  given c.database_url "DATABASE_URL is required"
  given c.app.env "APP_ENV is required"
  given c.auth.oidc_issuer "OIDC_ISSUER is required"
  given c.auth.oidc_audience "OIDC_AUDIENCE is required"
  given c.auth.oidc_client_id "OIDC_CLIENT_ID is required"
  given c.auth.oidc_redirect_url "OIDC_REDIRECT_URL is required"
  given c.auth.session_secret "SESSION_SECRET is required"
  require (not (ltb (len c.auth.session_secret) 32))
      (message "SESSION_SECRET must be at least 32 characters")
  require (not (c.app.env == "development" && c.auth.dev_token_secret == ""))
      (message "DEV_TOKEN_SECRET is required in development")
  given c.payments.dodo_api_key "DODO_API_KEY is required"
  given c.payments.webhook_secret "DODO_WEBHOOK_SECRET is required"
  if c.app.env == "production" then validate_production c else ok tt

abbrev secret_vars : List String
secret_vars =
    "SESSION_SECRET" ∷ "DATABASE_URL" ∷ "POSTGRES_PASSWORD" ∷ "DODO_API_KEY" ∷ "DODO_WEBHOOK_SECRET"
    ∷ "METRICS_TOKEN" ∷ "ZO_ROOT_USER_PASSWORD" ∷ "OTEL_EXPORTER_OTLP_HEADERS" ∷ []

abbrev file_or : String → Option String → String
file_or value none = value
file_or value (some text) = trim_newlines text

-- `loadSecrets`: the environment afterwards. A file that cannot be read changes nothing.
unfoldable pub load_secrets : (String → Option String) → (String → String) → String → String
load_secrets read_file env name =
    let path = env (joined name "_FILE") in
    if any (λ v. v == name) secret_vars && not (path == "")
    then file_or (env name) (read_file path)
    else env name

abbrev or_default : String → String → String
or_default value default = if value == "" then default else value

unfoldable pub config_of : (String → Bool) → (String → String) → Config
config_of bool env = record {
  app = record { name = env "APP_NAME"; env = env "APP_ENV"; cors_origin = env "CORS_ORIGIN" };
  server_port = env "SERVER_PORT";
  database_url = env "DATABASE_URL";
  auth = record {
    oidc_issuer = env "OIDC_ISSUER";
    oidc_audience = env "OIDC_AUDIENCE";
    oidc_client_id = env "OIDC_CLIENT_ID";
    oidc_redirect_url = env "OIDC_REDIRECT_URL";
    session_secret = env "SESSION_SECRET";
    dev_token_secret = env "DEV_TOKEN_SECRET";
  };
  payments = record {
    dodo_api_key = env "DODO_API_KEY";
    webhook_secret = env "DODO_WEBHOOK_SECRET";
    dodo_base_url = or_default (env "DODO_BASE_URL") "https://test.dodopayments.com";
  };
  otel = record {
    enabled = bool (env "OTEL_ENABLED");
    service_name = or_default (env "OTEL_SERVICE_NAME") (env "APP_NAME");
    endpoint = env "OTEL_EXPORTER_OTLP_ENDPOINT";
    insecure = bool (env "OTEL_EXPORTER_OTLP_INSECURE");
  };
  metrics_token = env "METRICS_TOKEN";
}

-- `Load`
unfoldable pub load : (String → Bool) → (String → Option String) → (String → String) → Result Config
unfolding load_secrets
load bool read_file env = do let c = config_of bool (load_secrets read_file env); validate c; ok c
