-- ===== src/Tests/World.antt =====
-- The organization acme with the role owner, held by Alice, and an invitation for Bob.
use modular_monolith.Prelude.{true, [], ◌∷◌, none, some}
use modular_monolith.Failure.{pgx_v5}
use modular_monolith.Tables.{
  Db, Permission, RoleRow, RolePermissionRow, UserRole, User, Identity, Subscription, Invitation,
}
use modular_monolith.Session.{World}
use modular_monolith.Authflow.User.{SessionUser}

abbrev pub alice : User
alice = record {
  id = "u-alice";
  identity_id = "i-alice";
  zitadel_user_id = "z-alice";
  organization_id = "acme";
  email = "alice@acme";
  created_at = 1;
  updated_at = 1;
}

abbrev pub alice_identity : Identity
alice_identity = record {
  id = "i-alice";
  zitadel_user_id = "z-alice";
  email = "alice@acme";
  name = "Alice";
  created_at = 1;
  updated_at = 1;
}

abbrev pub bob_identity : Identity
bob_identity = record {
  id = "i-bob";
  zitadel_user_id = "z-bob";
  email = "bob@acme";
  name = "Bob";
  created_at = 2;
  updated_at = 2;
}

abbrev pub owner : RoleRow
owner = record {
  id = "r-owner";
  organization_id = "acme";
  name = "owner";
  created_at = 1;
  updated_at = 1;
}

abbrev pub viewer : RoleRow
viewer = record {
  id = "r-viewer";
  organization_id = "acme";
  name = "viewer";
  created_at = 1;
  updated_at = 1;
}

abbrev pub settings_write : Permission
settings_write = record { id = "p-settings"; name = "settings.write"; created_at = 1 }

abbrev pub owner_grant : RolePermissionRow
owner_grant = record { organization_id = "acme"; role_id = "r-owner"; permission_id = "p-settings" }

abbrev pub alice_owner : UserRole
alice_owner = record {
  id = "a-alice";
  organization_id = "acme";
  user_id = "u-alice";
  role_id = "r-owner";
  created_at = 1;
}

abbrev pub for_bob : Invitation
for_bob = record {
  id = "inv-bob";
  organization_id = "acme";
  email = "bob@acme";
  role_name = "viewer";
  token = "t-bob";
  expires_at = 100;
  accepted_at = none;
  created_at = 5;
  updated_at = 5;
}

abbrev pub trial : Subscription
trial = record {
  id = "s-acme";
  organization_id = "acme";
  provider = "dodo";
  provider_customer_id = some "c-acme";
  provider_subscription_id = some "sub-acme";
  plan = "pro";
  status = "trialing";
  current_period_end = none;
  created_at = 3;
  updated_at = 3;
}

abbrev pub db : Db
db = record {
  permissions = settings_write ∷ [];
  roles = owner ∷ viewer ∷ [];
  role_permissions = owner_grant ∷ [];
  user_roles = alice_owner ∷ [];
  users = alice ∷ [];
  identities = alice_identity ∷ bob_identity ∷ [];
  organizations = [];
  subscriptions = trial ∷ [];
  usage_counters = [];
  invitations = for_bob ∷ [];
  audit_logs = [];
}

-- Every generated identifier is "new": enough for calls that draw one.
abbrev pub start : World
start = record {
  db = db;
  tenant = none;
  replies = [];
  now = 10;
  uuid = λ n. "new";
  drawn = 0;
  collate = λ s t. true;
  driver = pgx_v5;
}

abbrev pub alice_session : SessionUser
alice_session = record {
  subject = "z-alice";
  identity_id = "i-alice";
  email = "alice@acme";
  email_verified = true;
  preferred_username = "";
  name = "Alice";
  given_name = "";
  family_name = "";
  locale = "";
  organization_id = "";
  roles = [];
  raw_claims = [];
}
