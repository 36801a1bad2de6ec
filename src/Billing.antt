-- ===== src/Billing.antt =====
-- internal/modules/billing: the subscription of an organization, and the payment provider's events.
pub mod Repository
pub mod Service
pub mod Handler
pub mod Deliveries
pub mod Unique
pub mod Invariant
pub mod Webhook
pub mod Idempotence
