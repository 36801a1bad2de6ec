-- ===== src/Tables.antt =====
-- The rows of the tables in migrations/*.sql as the repositories scan them, and the database.
-- Times are nanoseconds since the epoch. Columns that no statement of the program reads (the keys
-- and dates of role_permissions, the update times of the other tables) are left out.
use modular_monolith.Prelude.{ℕ, String, List, Option}
use modular_monolith.Prelude.Int.{ℤ}

pub record Permission : Type 0 where
  pub id : String
  pub name : String
  pub created_at : ℕ

pub record RoleRow : Type 0 where
  pub id : String
  pub organization_id : String
  pub name : String
  pub created_at : ℕ
  pub updated_at : ℕ

pub record RolePermissionRow : Type 0 where
  pub organization_id : String
  pub role_id : String
  pub permission_id : String

pub record UserRole : Type 0 where
  pub id : String
  pub organization_id : String
  pub user_id : String
  pub role_id : String
  pub created_at : ℕ

pub record User : Type 0 where
  pub id : String
  pub identity_id : String
  pub zitadel_user_id : String
  pub organization_id : String
  pub email : String
  pub created_at : ℕ
  pub updated_at : ℕ

pub record Identity : Type 0 where
  pub id : String
  pub zitadel_user_id : String
  pub email : String
  pub name : String
  pub created_at : ℕ
  pub updated_at : ℕ

pub record Organization : Type 0 where
  pub id : String
  pub zitadel_org_id : String
  pub organization_id : String
  pub name : String
  pub created_at : ℕ

pub record Subscription : Type 0 where
  pub id : String
  pub organization_id : String
  pub provider : String
  pub provider_customer_id : Option String
  pub provider_subscription_id : Option String
  pub plan : String
  pub status : String
  pub current_period_end : Option ℕ
  pub created_at : ℕ
  pub updated_at : ℕ

pub record UsageCounter : Type 0 where
  pub id : String
  pub organization_id : String
  pub metric : String
  pub value : ℤ
  pub created_at : ℕ
  pub updated_at : ℕ

pub record Invitation : Type 0 where
  pub id : String
  pub organization_id : String
  pub email : String
  pub role_name : String
  pub token : String
  pub expires_at : ℕ
  pub accepted_at : Option ℕ
  pub created_at : ℕ
  pub updated_at : ℕ

pub record AuditLog : Type 0 where
  pub id : String
  pub organization_id : String
  pub user_id : String
  pub action : String
  pub entity_type : String
  pub entity_id : String
  pub metadata : Option (List (String × String))
  pub created_at : ℕ

pub record Db : Type 0 where
  pub permissions : List Permission
  pub roles : List RoleRow
  pub role_permissions : List RolePermissionRow
  pub user_roles : List UserRole
  pub users : List User
  pub identities : List Identity
  pub organizations : List Organization
  pub subscriptions : List Subscription
  pub usage_counters : List UsageCounter
  pub invitations : List Invitation
  pub audit_logs : List AuditLog
