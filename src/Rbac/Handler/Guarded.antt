-- ===== src/Rbac/Handler/Guarded.antt =====
-- What 201 means for POST /roles, from the session to the tables (routes.go, the middleware,
-- handler.go, service.go and repository.go together).
use mathlib.Core.List.{Memᴰ}
use modular_monolith.Prelude.{
  ℕ, String, ◌==◌, ◌≡◌, inl, inr, sym, subst, Bool, some, arith, Bool-cases, Option-cases,
  trim_space,
}
use modular_monolith.Failure.{
  Error, Result, ok, errors_is, role_already_exists, unknown_permissions, Result-cases,
}
use modular_monolith.Tables.{Db, User}
use modular_monolith.Session.{World}
use modular_monolith.Session.Atomic.{outcome_cases}
use modular_monolith.Authflow.User.{SessionUser}
use modular_monolith.Access.{Context, Response}
use modular_monolith.Access.Protection.{protected_cases}
use modular_monolith.Http.{Outcome, status_of, serve}
use modular_monolith.Routes.{permitted, limited, guarded}
use modular_monolith.Rbac.Statements.{Role, unique_strings}
use modular_monolith.Rbac.Access.{HasPermission}
use modular_monolith.Rbac.Service.{create_role_logged}
use modular_monolith.Rbac.Creation.{IsCreated, create_role_logged-IsCreated}
use modular_monolith.Rbac.Handler.{
  RoleResponse, CreateRoleRequest, create_role_error, create_role_handler,
}

-- The call of the service behind an answer of 201.
record Created (organization_id : String) (body : Result CreateRoleRequest) (w : World)
    (x : Outcome RoleResponse × World) : Type 0 where
  request : CreateRoleRequest
  decoded : body ≡ ok request
  actor : String
  role : Role
  final : World
  ran :
      create_role_logged organization_id actor request.name request.permissions w ≡ (ok role, final)
  answered : x.1 ≡ final

error_status : (e : Error) → status_of (create_role_error e) ≡ 201 → ⊥
error_status e h = elim (Bool-cases (errors_is e role_already_exists)) [
  | inl taken ↦ ground (arith, taken, h)
  | inr other ↦ elim (Bool-cases (errors_is e unknown_permissions)) [
    | inl unknown ↦ ground (arith, other, unknown, h)
    | inr failed ↦ ground (arith, other, failed, h)
  ]
]

create_role_handler-Created :
    (organization_id : String) (body : Result CreateRoleRequest) (c : Context) (w : World)
    → c.organization_id ≡ some organization_id
    → status_of (create_role_handler body c w).0 ≡ 201
    → Created organization_id body w (create_role_handler body c w)
unfolding create_role_handler
create_role_handler-Created organization_id body c w here h = elim (Option-cases c.user) [
  | inl nobody ↦ absurd (ground (arith, nobody, h))
  | inr (user, known) ↦ elim (Result-cases body) [
    | inr (e, bad) ↦ absurd (ground (arith, known, here, bad, h))
    | inl (req, good) ↦ elim (Bool-cases (trim_space req.name == "")) [
      | inl nameless ↦ absurd (ground (arith, known, here, good, nameless, h))
      | inr named ↦
          elim (outcome_cases
            (create_role_logged organization_id user.user_id req.name req.permissions w)) [
              | inr (e, w', failed) ↦
                  absurd (error_status e (ground (arith, known, here, good, named, failed, h)))
              | inl (role, w', ran) ↦ record {
                request = req;
                decoded = good;
                actor = user.user_id;
                role = role;
                final = w';
                ran = ran;
                answered = ground (arith, known, here, good, named, ran);
              }
            ]
    ]
  ]
]

abbrev pub status_in : Response × World → ℕ
status_in (r, w) = r.status

-- The role was created by a member who may.
pub record Posted (session : Result SessionUser) (body : Result CreateRoleRequest) (w : World)
    (x : Response × World) : Type 0 where
  pub user : SessionUser
  pub authenticated : session ≡ ok user
  pub member : User
  pub stored : Memᴰ member w.db.users
  pub same_identity : member.identity_id ≡ user.identity_id
  pub permission : HasPermission w.db member.organization_id member.id "settings.write"
  pub request : CreateRoleRequest
  pub decoded : body ≡ ok request
  pub role_id : String
  pub created :
      IsCreated member.organization_id
        (trim_space request.name)
        (unique_strings request.permissions)
        w.db
        x.1.db
        role_id

-- A request POST /roles that is answered with 201 came from a session whose identity has a stored
-- membership with the permission settings.write in its organization. It left there one new role, of
-- the requested name without spaces around it, with a grant for every permission of a requested
-- name, and no other role and no other grant is new.
pub post_roles-Posted :
    (session : Result SessionUser) (allowed : Bool) (body : Result CreateRoleRequest) (w : World)
    → status_in
        (guarded (permitted "settings.write") session allowed (serve (create_role_handler body)) w)
      ≡ 201
    → Posted session body w
        (guarded (permitted "settings.write") session allowed (serve (create_role_handler body)) w)
unfolding guarded
post_roles-Posted session allowed body w h =
    let next = limited allowed (serve (create_role_handler body)) in
    elim (protected_cases session "settings.write" next w) [
      | inl r ↦ absurd (ground (arith, r.status, h))
      | inr a ↦ elim (Bool-cases allowed) [
        | inr slow ↦ absurd (ground (arith, a.ran, slow, h))
        | inl fast ↦
            let c =
              create_role_handler-Created a.member.organization_id body a.context a.start a.tenant
                (ground (arith, a.ran, fast, h)) in
            let final : (guarded (permitted "settings.write") session allowed
                  (serve (create_role_handler body)) w).1
                ≡ c.final =
              ground (arith, a.ran, fast, c.answered) in
            let made =
              create_role_logged-IsCreated a.member.organization_id c.actor c.request.name
                c.request.permissions a.start c.final c.role c.ran in
            record {
              user = a.user;
              authenticated = a.authenticated;
              member = a.member;
              stored = a.stored;
              same_identity = a.same_identity;
              permission = a.permitted;
              request = c.request;
              decoded = c.decoded;
              role_id = c.role.id;
              created =
                  subst
                    (λ (before : Db).
                      IsCreated a.member.organization_id (trim_space c.request.name)
                        (unique_strings c.request.permissions) before _ c.role.id)
                    a.db
                    (subst
                      (λ (v : World).
                        IsCreated a.member.organization_id (trim_space c.request.name)
                          (unique_strings c.request.permissions) a.start.db v.db c.role.id)
                      (sym final) made);
            }
      ]
    ]
