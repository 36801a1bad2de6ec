-- ===== src/Members.antt =====
-- internal/repository/user_repository.go, the methods of internal/service/user_service.go, which
-- only call it, and internal/modules/identityresolver, over the tables users and identities
-- (migrations/002_users.sql, 014_identities.sql, 016_identity_membership_bridge.sql).
pub mod Handler
pub mod Joining
use modular_monolith.Prelude.{
  ℕ, suc, zero, ltb, String, ◌==◌, Bool, ◌&&◌, List, [], ◌∷◌, ◌++◌, Option, none, some,
  if◌then◌else◌, select, find, any, map, length,
}
use modular_monolith.Failure.{
  Error, Result, ok, err, sentinel, no_rows, message, wrap, pgconn_v1, pgx_v5, pg_error, is_no_rows,
  user_already_exists, membership_not_found, identity_not_found,
}
use modular_monolith.Tables.{Db, User, Identity, RoleRow, UserRole}
use modular_monolith.Session.{
  World, M, pure, map_error, ◌>>=◌, ◌>>◌, statement, violation, with_tenant_query,
}
use modular_monolith.Rbac.Queries.{is_assignment, new_assignment, with_assignments, scan_row}

abbrev pub new_user : World → String → String → String → String → User
new_user w organization_id identity_id zitadel_user_id email = record {
  id = w.uuid w.drawn;
  identity_id = identity_id;
  zitadel_user_id = zitadel_user_id;
  organization_id = organization_id;
  email = email;
  created_at = w.now;
  updated_at = w.now;
}

abbrev pub add_user : World → User → World
add_user w u = record w { db = record (w.db) { users = w.db.users ++ u ∷ [] }; drawn = suc w.drawn }

-- A row of users: NOT NULL first, then the unique columns. The identity comes from a subquery on
-- identities or was found there, so the foreign key holds.
unfoldable pub insert_user : String → Option String → Option String → String → M User
insert_user organization_id none zitadel_user_id email w = violation "23502" "" w
insert_user organization_id (some identity_id) none email w = violation "23502" "" w
insert_user organization_id (some identity_id) (some zitadel_user_id) email w =
    let u = new_user w organization_id identity_id zitadel_user_id email in
    if any (λ (v : User). v.zitadel_user_id == zitadel_user_id) w.db.users
    then violation "23505" "users_zitadel_user_id_key" w
    else if any (λ (v : User). v.email == email) w.db.users
    then violation "23505" "users_email_key" w
    else (ok u, add_user w u)

-- (SELECT id FROM identities WHERE zitadel_user_id = $2) and the reverse
abbrev pub identity_id_of : Option Identity → Option String
identity_id_of none = none
identity_id_of (some i) = some i.id

abbrev pub zitadel_user_id_of : Option Identity → Option String
zitadel_user_id_of none = none
zitadel_user_id_of (some i) = some i.zitadel_user_id

unfoldable pub insert_user_sql : String → String → String → M User
unfolding insert_user
insert_user_sql organization_id zitadel_user_id email w =
    insert_user organization_id
      (identity_id_of
        (find (λ (i : Identity). i.zitadel_user_id == zitadel_user_id) w.db.identities))
      (some zitadel_user_id) email w

unfoldable pub insert_membership_sql : String → String → String → M User
unfolding insert_user
insert_membership_sql organization_id identity_id email w =
    insert_user organization_id (some identity_id)
      (zitadel_user_id_of (find (λ (i : Identity). i.id == identity_id) w.db.identities)) email w

-- ON CONFLICT (organization_id, user_id, role_id) DO NOTHING
abbrev pub add_assignment : String → String → String → World → World
add_assignment organization_id user_id role_id w =
    if any (is_assignment organization_id user_id role_id) w.db.user_roles
    then w
    else record (with_assignments w
        (w.db.user_roles ++ new_assignment w organization_id user_id role_id ∷ [])) {
          drawn = suc w.drawn;
        }

unfoldable pub add_assignments : String → String → List RoleRow → World → World
add_assignments organization_id user_id [] w = w
add_assignments organization_id user_id (r ∷ rows) w =
    add_assignments organization_id user_id rows (add_assignment organization_id user_id r.id w)

abbrev pub is_role : String → String → RoleRow → Bool
is_role organization_id name r = r.organization_id == organization_id && r.name == name

-- INSERT INTO user_roles .. SELECT $1, $2, r.id FROM roles r WHERE r.organization_id = $1 AND r.name = $3
unfoldable pub insert_named_role_sql : String → String → String → M (Unit {0})
unfolding add_assignments
insert_named_role_sql organization_id user_id role_name w = (
  ok tt,
  add_assignments organization_id user_id (select (is_role organization_id role_name) w.db.roles) w,
)

-- `err.(*pgconn.PgError)`, for the type of the package `jackc/pgconn`
unfoldable pub user_exists : Error → Error
user_exists (pg_error pgconn_v1 code constraint) =
    if code == "23505" then sentinel user_already_exists else pg_error pgconn_v1 code constraint
user_exists (pg_error pgx_v5 code constraint) = pg_error pgx_v5 code constraint
user_exists (sentinel s) = sentinel s
user_exists no_rows = no_rows
user_exists (message m) = message m
user_exists (wrap m e) = wrap m e

unfoldable pub create_user : String → String → String → M User
create_user organization_id zitadel_user_id email = map_error user_exists (
    with_tenant_query organization_id
      (statement (insert_user_sql organization_id zitadel_user_id email)))

unfoldable pub create_membership : String → String → String → M User
create_membership organization_id identity_id email = map_error user_exists (
    with_tenant_query organization_id
      (statement (insert_membership_sql organization_id identity_id email)))

-- What `CreateMembershipWithRole` runs in its transaction.
unfoldable pub membership_with_role_tx : String → String → String → String → M User
membership_with_role_tx organization_id identity_id email role_name = do
  u ← statement (insert_membership_sql organization_id identity_id email)
  statement (insert_named_role_sql organization_id u.id role_name)
  pure u

unfoldable pub create_membership_with_role : String → String → String → String → M User
create_membership_with_role organization_id identity_id email role_name = map_error user_exists (
    with_tenant_query organization_id
      (membership_with_role_tx organization_id identity_id email role_name))

abbrev pub has_identity : String → User → Bool
has_identity identity_id u = u.identity_id == identity_id

unfoldable pub select_by_identity_sql : String → M User
select_by_identity_sql identity_id w = (scan_row (find (has_identity identity_id) w.db.users), w)

unfoldable pub get_by_identity_id : String → String → M User
get_by_identity_id organization_id identity_id =
    map_error (λ e. if is_no_rows e then no_rows else e)
      (with_tenant_query organization_id (statement (select_by_identity_sql identity_id)))

-- `ListByIdentityID`, on the pool: rows of every organization.
unfoldable pub list_by_identity_id : String → M (List User)
list_by_identity_id identity_id =
    statement (λ w. (ok (select (has_identity identity_id) w.db.users), w))

-- The `Membership` of internal/context/membership.go.
pub record Membership : Type 0 where
  pub membership_id : String
  pub organization_id : String

abbrev pub membership_of : User → Membership
membership_of u = record { membership_id = u.id; organization_id = u.organization_id }

abbrev pub scan_membership : Option User → Result Membership
scan_membership none = err no_rows
scan_membership (some u) = ok (membership_of u)

unfoldable pub select_membership_sql : String → M Membership
select_membership_sql identity_id w =
    (scan_membership (find (has_identity identity_id) w.db.users), w)

-- `GetDefaultMembership`, which `ResolveMembership` calls.
unfoldable pub get_default_membership : String → M Membership
get_default_membership identity_id =
    map_error (λ e. if is_no_rows e then sentinel membership_not_found else e)
      (statement (select_membership_sql identity_id))

unfoldable pub list_memberships : String → M (List Membership)
list_memberships identity_id =
    statement (λ w. (ok (map membership_of (select (has_identity identity_id) w.db.users)), w))

-- `membershipCheckerAdapter.HasMemberships` and `onboardingIdentityChecker.HasMembership`
unfoldable pub has_memberships : String → M Bool
has_memberships identity_id = do l ← list_memberships identity_id; pure (ltb 0 (length l))

unfoldable pub count_users_sql : String → M ℕ
count_users_sql identity_id w = (ok (length (select (has_identity identity_id) w.db.users)), w)

unfoldable pub has_membership : String → M Bool
has_membership identity_id = do n ← statement (count_users_sql identity_id); pure (ltb 0 n)

-- `IdentityResolver.ResolveIdentity`
unfoldable pub select_identity_sql : String → M Identity
select_identity_sql provider_id w =
    (scan_row (find (λ (i : Identity). i.zitadel_user_id == provider_id) w.db.identities), w)

unfoldable pub resolve_identity : String → M Identity
resolve_identity provider_id =
    map_error (λ e. if is_no_rows e then sentinel identity_not_found else e)
      (statement (select_identity_sql provider_id))
