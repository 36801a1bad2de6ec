-- ===== src/Access/Protection.antt =====
-- A protected handler runs for members with the permission only.
use mathlib.Core.List.{Memᴰ}
use modular_monolith.Prelude.{
  ℕ, String, ◌==◌, ◌≡◌, refl, ◌⊎◌, inl, inr, some, arith, eq_iff, find, find-eq-some, Bool-cases,
  Option-cases, sym, ◌∙◌, subst, if◌then◌else◌,
}
use modular_monolith.Failure.{Error, Result, ok, err, sentinel, membership_not_found, is_no_rows}
use modular_monolith.Tables.{Db, User}
use modular_monolith.Session.{World, statement}
use modular_monolith.Session.Atomic.{outcome_cases, statement_cases}
use modular_monolith.Session.Transactions.{with_tenant_query-rolls_back}
use modular_monolith.Members.{
  membership_of, select_membership_sql, has_identity, get_default_membership,
}
use modular_monolith.Rbac.Queries.{user_has_permission_sql}
use modular_monolith.Rbac.Repository.{user_has_permission}
use modular_monolith.Rbac.Access.{HasPermission, user_has_permission_iff}
use modular_monolith.Authflow.User.{SessionUser}
use modular_monolith.Access.{
  IdentityContext, Context, Response, Handler, refuse, session_identity, with_membership,
  resolve_membership, tenant_context, require_permission, no_context, protected,
}

-- The request was turned away with an error status, and the database is as it was.
pub record Refused (w : World) (x : Response × World) : Type 0 where
  pub status : (x.0.status ≡ 401) ⊎ ((x.0.status ≡ 403) ⊎ (x.0.status ≡ 500))
  pub db : x.1.db ≡ w.db

-- The handler was called with the organization of a stored membership of the session's identity,
-- which has the permission there.
pub record Admitted (session : Result SessionUser) (permission : String) (next : Handler)
    (w : World) (x : Response × World) : Type 0 where
  pub user : SessionUser
  pub authenticated : session ≡ ok user
  pub member : User
  pub stored : Memᴰ member w.db.users
  pub same_identity : member.identity_id ≡ user.identity_id
  pub context : Context
  pub tenant : context.organization_id ≡ some member.organization_id
  pub permitted : HasPermission w.db member.organization_id member.id permission
  pub start : World
  pub db : start.db ≡ w.db
  pub ran : x ≡ next context start

pub get_default_membership_cases :
    (identity_id : String) (w : World)
    → ((u : User) × (w' : World) × (get_default_membership identity_id w
          ≡ (ok (membership_of u), w'))
        × Memᴰ u w.db.users
        × (u.identity_id ≡ identity_id)
        × (w'.db ≡ w.db))
      ⊎ ((e : Error) × (w' : World) × (get_default_membership identity_id w ≡ (err e, w'))
          × (w'.db ≡ w.db))
unfolding get_default_membership select_membership_sql is_no_rows
get_default_membership_cases identity_id w =
    elim (statement_cases (select_membership_sql identity_id) w) [
      | inr (e, rs, r) ↦ inr (
        if is_no_rows e then sentinel membership_not_found else e,
        record w { replies = rs },
        ground (arith, r),
        refl,
      )
      | inl (rs, r) ↦ elim (Option-cases (find (has_identity identity_id) w.db.users)) [
        | inl missing ↦ inr (
          sentinel membership_not_found,
          record w { replies = rs },
          ground (arith, r, missing),
          refl,
        )
        | inr (u, found) ↦
            let (m, is) = find-eq-some (has_identity identity_id) w.db.users found in
            inl (
              u,
              record w { replies = rs },
              ground (arith, r, found),
              m,
              ground (arith, is, eq_iff u.identity_id identity_id),
              refl,
            )
      ]
    ]

user_has_permission-db :
    (organization_id membership_id permission : String) (w w' : World) {e : Error}
    → user_has_permission organization_id membership_id permission w ≡ (err e, w')
    → w'.db ≡ w.db
unfolding user_has_permission
user_has_permission-db organization_id membership_id permission w w' h =
    with_tenant_query-rolls_back organization_id
      (statement (user_has_permission_sql organization_id membership_id permission)) w h

pub refused :
    (w v : World) (status : ℕ) (message : String) {x : Response × World}
    → x ≡ refuse status message v
    → (status ≡ 401) ⊎ ((status ≡ 403) ⊎ (status ≡ 500))
    → v.db ≡ w.db
    → Refused w x
refused w v status message e s d = record {
  status = ground (arith, e, s);
  db = ground (arith, e, d);
}

session_outcome :
    (session : Result SessionUser)
    → ((user : SessionUser) × (session ≡ ok user)) ⊎ ((e : Error) × (session ≡ err e))
session_outcome (ok user) = inl (user, refl)
session_outcome (err e) = inr (e, refl)

module _ (session : Result SessionUser) (permission : String) (next : Handler) where
  abbrev checked : Handler
  checked = tenant_context (require_permission permission next)

  -- The permission check, for a member whose context is set.
  require_permission_cases :
      (w v : World) (user : SessionUser) (i : IdentityContext) (u : User) (c : Context)
      → session ≡ ok user
      → Memᴰ u w.db.users
      → u.identity_id ≡ user.identity_id
      → v.db ≡ w.db
      → Refused w (checked (with_membership i c (membership_of u)) v)
        ⊎ Admitted session permission next w (checked (with_membership i c (membership_of u)) v)
  unfolding tenant_context require_permission
  require_permission_cases w v user i u c is listed same here =
      elim (Bool-cases (u.organization_id == "")) [
        | inl nowhere ↦ inl (
            refused w v 500 "organization context missing" (ground (arith, nowhere))
              (inr (inr refl)) here)
        | inr org ↦ elim (Bool-cases (u.id == "")) [
          | inl nobody ↦ inl (
              refused w v 500 "user context missing" (ground (arith, org, nobody)) (inr (inr refl))
                here)
          | inr id ↦
              elim (outcome_cases (user_has_permission u.organization_id u.id permission v)) [
                | inr (e, v', h) ↦ inl (
                    refused w v' 500 "failed to check permission" (ground (arith, org, id, h))
                      (inr (inr refl))
                      (user_has_permission-db u.organization_id u.id permission v v' h ∙ here))
                | inl (b, v', h) ↦
                    let (right, kept) =
                      user_has_permission_iff u.organization_id u.id permission v v' b h in
                    elim (Bool-cases b) [
                      | inr denied ↦ inl (
                          refused w v' 403 "permission denied" (ground (arith, org, id, h, denied))
                            (inr (inl refl)) (kept ∙ here))
                      | inl yes_b ↦ inr (record {
                        user = user;
                        authenticated = is;
                        member = u;
                        stored = listed;
                        same_identity = same;
                        context = record (with_membership i c (membership_of u)) {
                          organization_id = some u.organization_id;
                        };
                        tenant = refl;
                        permitted =
                            subst (λ (db : Db). HasPermission db u.organization_id u.id permission)
                              here (right.0 yes_b);
                        start = v';
                        db = kept ∙ here;
                        ran = ground (arith, org, id, h, yes_b);
                      })
                    ]
              ]
        ]
      ]

  -- A request to a route that requires a permission is refused, with status 401, 403 or 500 and
  -- with no change of the database; or the handler runs for the organization of a stored membership
  -- of the session's identity that has the permission in this organization.
  pub protected_cases :
      (w : World)
      → Refused w (protected session permission next w)
        ⊎ Admitted session permission next w (protected session permission next w)
  unfolding protected session_identity resolve_membership tenant_context
  protected_cases w = elim (session_outcome session) [
    | inr (e, is) ↦ inl (refused w w 401 "not authenticated" (ground (arith, is)) (inl refl) refl)
    | inl (user, is) ↦ elim (Bool-cases (user.identity_id == "")) [
      | inl empty ↦
          inl (refused w w 401 "not authenticated" (ground (arith, is, empty)) (inl refl) refl)
      | inr named ↦ elim (get_default_membership_cases user.identity_id w) [
        | inr (e, v, h, same) ↦ inl (
            refused w v 500 "organization context missing" (ground (arith, is, named, h))
              (inr (inr refl)) same)
        | inl (u, v, h, listed, same, here) ↦
            let i : IdentityContext = record {
              identity_id = user.identity_id;
              provider_id = user.subject;
              email = user.email;
              name = user.name;
            } in
            let c = record no_context { identity = some i } in
            let path : protected session permission next w
                ≡ checked (with_membership i c (membership_of u)) v =
              ground (arith, is, named, h) in
            subst (λ x. Refused w x ⊎ Admitted session permission next w x) (sym path)
              (require_permission_cases w v user i u c is listed same here)
      ]
    ]
  ]
