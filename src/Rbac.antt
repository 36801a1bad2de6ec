-- ===== src/Rbac.antt =====
-- internal/modules/rbac: roles, their permissions and the users that hold them.
pub mod Statements
pub mod Kinds
pub mod Inserts
pub mod Queries
pub mod Repository
pub mod Service
pub mod Handler
pub mod Errors
pub mod Names
pub mod Assignments
pub mod Access
pub mod Calls
pub mod Kept
pub mod Isolation
pub mod Decisions
pub mod Integrity
pub mod Defaults
pub mod Creation
