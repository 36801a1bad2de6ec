-- ===== src/Routes/Guards.antt =====
-- Who reaches the handlers of the protected group (routes.go and the middleware).
use mathlib.Core.List.{Memᴰ}
use modular_monolith.Prelude.{
  String, ◌==◌, ◌≡◌, refl, ◌⊎◌, inl, inr, Bool, true, some, arith, sym, Bool-cases, subst,
}
use modular_monolith.Failure.{Result, ok, Result-cases}
use modular_monolith.Tables.{User}
use modular_monolith.Session.{World}
use modular_monolith.Members.{membership_of}
use modular_monolith.Authflow.User.{SessionUser}
use modular_monolith.Access.{
  IdentityContext, Context, Response, Handler, session_identity, with_membership,
  resolve_membership, tenant_context, no_context,
}
use modular_monolith.Access.Protection.{
  Refused, protected_cases, get_default_membership_cases, refused,
}
use modular_monolith.Routes.{Guard, member, permitted, limited, guarded, needs_member}

-- The handler's turn came, for the organization of a stored membership of the session's identity,
-- with the database as it was.
pub record Reached (session : Result SessionUser) (allowed : Bool) (next : Handler) (w : World)
    (x : Response × World) : Type 0 where
  pub user : SessionUser
  pub authenticated : session ≡ ok user
  pub member : User
  pub stored : Memᴰ member w.db.users
  pub same_identity : member.identity_id ≡ user.identity_id
  pub context : Context
  pub tenant : context.organization_id ≡ some member.organization_id
  pub start : World
  pub db : start.db ≡ w.db
  pub ran : x ≡ limited allowed next context start

module _ (session : Result SessionUser) (allowed : Bool) (next : Handler) (w : World) where
  tenant_cases :
      (v : World) (user : SessionUser) (i : IdentityContext) (u : User) (c : Context)
      → session ≡ ok user
      → Memᴰ u w.db.users
      → u.identity_id ≡ user.identity_id
      → v.db ≡ w.db
      → Refused w (tenant_context (limited allowed next) (with_membership i c (membership_of u)) v)
        ⊎ Reached session allowed next w
            (tenant_context (limited allowed next) (with_membership i c (membership_of u)) v)
  unfolding tenant_context
  tenant_cases v user i u c is listed same here = elim (Bool-cases (u.organization_id == "")) [
    | inl nowhere ↦ inl (
        refused w v 500 "organization context missing" (ground (arith, nowhere)) (inr (inr refl))
          here)
    | inr org ↦ inr (record {
      user = user;
      authenticated = is;
      member = u;
      stored = listed;
      same_identity = same;
      context = record (with_membership i c (membership_of u)) {
        organization_id = some u.organization_id;
      };
      tenant = refl;
      start = v;
      db = here;
      ran = ground (arith, org);
    })
  ]

  member_cases :
      Refused w (guarded member session allowed next w)
      ⊎ Reached session allowed next w (guarded member session allowed next w)
  unfolding guarded session_identity resolve_membership tenant_context
  member_cases = elim (Result-cases session) [
    | inr (e, is) ↦ inl (refused w w 401 "not authenticated" (ground (arith, is)) (inl refl) refl)
    | inl (user, is) ↦ elim (Bool-cases (user.identity_id == "")) [
      | inl empty ↦
          inl (refused w w 401 "not authenticated" (ground (arith, is, empty)) (inl refl) refl)
      | inr named ↦ elim (get_default_membership_cases user.identity_id w) [
        | inr (e, v, h, same) ↦ inl (
            refused w v 500 "organization context missing" (ground (arith, is, named, h))
              (inr (inr refl)) same)
        | inl (u, v, h, listed, same, here) ↦
            let i : IdentityContext = record {
              identity_id = user.identity_id;
              provider_id = user.subject;
              email = user.email;
              name = user.name;
            } in
            let c = record no_context { identity = some i } in
            let path : guarded member session allowed next w
                ≡ tenant_context (limited allowed next) (with_membership i c (membership_of u)) v =
              ground (arith, is, named, h) in
            subst (λ x. Refused w x ⊎ Reached session allowed next w x) (sym path)
              (tenant_cases v user i u c is listed same here)
      ]
    ]
  ]

  permitted_cases :
      (permission : String)
      → Refused w (guarded (permitted permission) session allowed next w)
        ⊎ Reached session allowed next w (guarded (permitted permission) session allowed next w)
  unfolding guarded
  permitted_cases permission = elim (protected_cases session permission (limited allowed next) w) [
    | inl r ↦ inl r
    | inr a ↦ inr (record {
      user = a.user;
      authenticated = a.authenticated;
      member = a.member;
      stored = a.stored;
      same_identity = a.same_identity;
      context = a.context;
      tenant = a.tenant;
      start = a.start;
      db = a.db;
      ran = a.ran;
    })
  ]

  -- A request to a route of the protected group, with or without a permission, is refused with 401,
  -- 403 or 500 and no change of the database; or its handler, behind the rate limit, has its turn
  -- for the organization of a stored membership of the session's identity.
  pub guarded_cases :
      (g : Guard)
      → needs_member g ≡ true
      → Refused w (guarded g session allowed next w)
        ⊎ Reached session allowed next w (guarded g session allowed next w)
  unfolding needs_member
  guarded_cases member h = member_cases
  guarded_cases (permitted permission) h = permitted_cases permission
  guarded_cases Guard.anyone h = absurd (ground (arith, h))
  guarded_cases Guard.signed_in h = absurd (ground (arith, h))
