-- ===== src/Lib.antt =====
-- modular-monolith: the Go backend, from its routes to its SQL statements. A request runs SQL
-- statements in transactions that carry its organization; roles, memberships, onboarding, invitations,
-- billing and usage are packages over the same database; sessions come from an OAuth login.
--
-- How the program is modelled
--   A World is the database (Tables: one list of rows for each table of migrations/*.sql) with its
--   surroundings: the schedule of the connection's replies, the clock, the generated identifiers, the
--   collation, and which Go package the pool's errors are of. A method is a function from a World to a
--   result and a World (Session.M), written as a do block in the order of the Go code; an error is a
--   value (Failure.Error), and every exchange with Postgres can fail by the schedule, so a theorem for
--   all worlds is one for every pattern of failures. A statement is a function on the tables with the
--   NOT NULL, UNIQUE, CHECK and FOREIGN KEY constraints that the migrations declare. A history is a
--   list of calls, each for an organization of its own.
--
-- The files
--   Prelude (Tests, Lists, Text, Cuts, Search, Int, Int64, Numerals): shared names, list searches,
--     texts as lists of bytes, integers, the wrap-around of int64 and the reading of numbers.
--   Failure, Tables, Session: errors, rows and the state monad. Session models
--     internal/database/tenant.go (SetTenantContext, WithTenantQuery) and internal/repository/tx.go
--     (WithTransaction); its children hold what a transaction guarantees (Atomic, Transactions), the
--     rules for properties that an action keeps (Keeps) and inversion (Inversion).
--   Rbac: internal/modules/rbac. Statements and Queries are the SQL of repository.go with the helpers
--     of repository_helpers.go, Repository its methods, Service the methods of service.go that write
--     audit entries. Kinds is the table of the default roles,
--     Inserts what the INSERTs leave. Access, Isolation, Decisions, Integrity, Defaults, Assignments, Errors and Names
--     hold the theorems, Calls and Kept the histories of calls; Handler and Handler/Guarded are
--     handler.go with dto.go, Creation is about new roles.
--   Audit: internal/audit and internal/repository/audit_repository.go.
--   Members: internal/repository/user_repository.go, internal/service/user_service.go and
--     internal/modules/identityresolver; Joining says what a new membership is.
--   Identities: internal/modules/identity (repository.go, service.go).
--   Organizations: internal/repository/organization_repository.go and
--     internal/service/organization_service.go; Registration says what a new organization is.
--   Onboarding, Invitations: internal/modules/onboarding/service.go and internal/modules/invitations
--     (service.go, repository.go, handler.go) with the adapters of internal/router/routes.go.
--   Access: internal/middleware (session_identity.go, resolve_membership.go, tenant.go) and
--     internal/modules/rbac/middleware.go, in the order of registerRoutes; Subscribed is
--     internal/modules/billing/subscription_middleware.go.
--   Billing: internal/modules/billing (repository.go, service.go, subscription_checker.go); Handler is
--     handler.go and billing_api_handler.go, Deliveries webhook_handler.go.
--   Payments: internal/platform/payments/dodo/provider.go.
--   Authflow: internal/modules/authflow. User, Cookies, Sessions and Handler are user.go, the cookies,
--     session.go with pkce.go, and handler.go; Handler/Signin and Handler/Completion follow a login.
--   Oidc: internal/providers/identity, the provider of the login and its cache of keys (Keys).
--   Http: the parts of gin, pkg/response and pkg/validator that the handlers use. The handlers of a
--     package stand in its Handler module; Organizations/Dashboard is dashboard_handler.go.
--   Routes: the table of registerRoutes in internal/router/routes.go with the guard of each route.
--   Middleware, RateLimit: cors.go, security.go, metricsauth.go, bodylimit.go, auth.go and ratelimit.go
--     of internal/middleware, and internal/auth/middleware.go.
--   Config: internal/config (config.go, secrets.go, types.go, validate.go).
--   Usage, Entitlements: internal/modules/usage and internal/modules/entitlements.
--   Tests: a small database and the theorems at it.
--
-- Choices
--   Loops run over lists, so no fuel is needed. Times are nanoseconds as natural numbers. Counters and
--   limits are integers with the range of int64 written out; Postgres refuses a BIGINT out of range,
--   Go wraps around. Postgres tests CHECK constraints on the proposed row before ON CONFLICT. An
--   error of COMMIT is taken as the server's, which has rolled back by then; a commit whose reply is
--   lost is left out. The rate limiter's get and Allow are one step. Libraries and services are
--   arguments: the random source, SHA-256, base64, AES-GCM, HMAC, the JSON decoders, the JWT parser,
--   the HTTP client, the token bucket of a rate limit and the environment. Where a theorem needs a
--   law of one, as that the cipher opens what it sealed, the law is a hypothesis and the tests give a
--   function that has it. For a protected request the result of GetSession is an argument, so that a
--   theorem holds for every session.
--   `with_role` tells whether the onboarding and the invitations have the atomic user creation, which
--   the router sets.
--
-- Not modelled
--   Row level security: the policies of the migrations do not bind the owner of the tables, the role
--   of the deployment (docs/FAILURE_INJECTION_REPORT.md); the isolation below is that of the
--   statements alone. Logging, metrics, traces, request identifiers, recovery from panics, the
--   JSON encoding of responses, the pool, the migrations and the process's start and end are not
--   modelled: they are output, or calls of libraries.
mod Prelude
pub mod Failure
pub mod Tables
pub mod Session
pub mod Rbac
pub mod Audit
pub mod Members
pub mod Identities
pub mod Organizations
pub mod Onboarding
pub mod Oidc
pub mod Authflow
pub mod Access
pub mod Http
pub mod Invitations
pub mod Middleware
pub mod Routes
pub mod RateLimit
pub mod Config
pub mod Payments
pub mod Billing
pub mod Usage
pub mod Entitlements
mod Tests
