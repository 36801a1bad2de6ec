-- ===== src/Tests.antt =====
-- Runs of the model on a small database, at which the theorems apply.
pub mod World
mod Crypto
mod Login
mod Web
mod Runtime
mod Rbac
mod Members
mod Billing
mod Usage
