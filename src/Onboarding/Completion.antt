-- ===== src/Onboarding/Completion.antt =====
-- What a completed onboarding (internal/modules/onboarding/service.go) leaves behind.
use mathlib.Core.List.{Memᴰ}
use modular_monolith.Prelude.{
  String, ◌==◌, ◌≡◌, refl, inl, inr, Bool, true, false, List, [], ◌∷◌, ◌++◌, arith, any, Bool-cases,
  sym, ◌∙◌, ap, subst, suc, ltb, length, select,
}
use modular_monolith.Failure.{ok, wrap}
use modular_monolith.Tables.{Db, User, Permission, Organization}
use modular_monolith.Session.{World, statement, map_error}
use modular_monolith.Session.Atomic.{statement-eq-ok}
use modular_monolith.Session.Inversion.{>>=-eq-ok, map_error-eq-ok}
use modular_monolith.Audit.Effect.{IgnoresAudit, log-KeepsDb}
use modular_monolith.Audit.{log}
use modular_monolith.Rbac.Access.{HasPermission}
use modular_monolith.Members.{
  has_identity, create_membership_with_role, has_membership, count_users_sql,
}
use modular_monolith.Members.Joining.{Joined, create_membership_with_role-Joined}
use modular_monolith.Organizations.{register_organization}
use modular_monolith.Onboarding.{
  OnboardingResult, create_owner, new_uuid, onboard, complete_onboarding, onboarding_event,
}
use modular_monolith.Organizations.Registration.{Registered, register_organization-Registered}
use modular_monolith.Onboarding.Ownership.{GrantsFollowRoles, owner-HasPermission}

-- The identity had no membership; now there is one new organization, under a free identifier and
-- with the given name, and one new user, which is the identity's in this organization and has every
-- permission there.
pub record Onboarded (identity_id email organization_name : String) (before : Db)
    (result : OnboardingResult) (after : Db) : Type 0 where
  pub fresh : any (has_identity identity_id) before.users ≡ false
  pub organization : Organization
  pub organization_id : organization.organization_id ≡ result.organization_id
  pub organization_named : organization.name ≡ organization_name
  pub was_free :
      any (λ (o : Organization). o.zitadel_org_id == result.organization_id) before.organizations
      ≡ false
  pub organizations : after.organizations ≡ before.organizations ++ organization ∷ []
  pub user : User
  pub user_id : user.id ≡ result.user_id
  pub user_organization : user.organization_id ≡ result.organization_id
  pub user_identity : user.identity_id ≡ identity_id
  pub user_email : user.email ≡ email
  pub users : after.users ≡ before.users ++ user ∷ []
  pub answered : result.organization_name ≡ organization_name
  pub owner :
      GrantsFollowRoles after
      → (p : Permission) → Memᴰ p before.permissions
      → HasPermission after result.organization_id result.user_id p.name

module _ (identity_id email : String) where
  create_owner-Joined :
      (organization_id user_id : String) (w w' : World)
      → create_owner true organization_id identity_id email w ≡ (ok user_id, w')
      → (u : User) × (u.id ≡ user_id)
        × Joined organization_id identity_id email "owner" w.db u w'.db
  unfolding create_owner
  create_owner-Joined organization_id user_id w w' h =
      let create = create_membership_with_role organization_id identity_id email "owner" in
      let explain = wrap "onboarding: create user with role failed" in
      let (u, v, e, k) = >>=-eq-ok (map_error explain create) _ w h in
      let joined =
        create_membership_with_role-Joined organization_id identity_id email "owner" w v u
          (map_error-eq-ok create w explain e) in
      let last : v.db ≡ w'.db = ground (arith, k) in
      (
        u,
        ground (arith, k),
        subst (Joined organization_id identity_id email "owner" w.db u) last joined,
      )

  Joined-Onboarded :
      (organization_name : String) (w : World) (o : Organization) (u : User) (before after : Db)
      → any (has_identity identity_id) w.db.users ≡ false
      → Registered o.organization_id organization_name w.db o before
      → Joined o.organization_id identity_id email "owner" before u after
      → Onboarded identity_id email organization_name w.db
          (record {
            organization_id = o.organization_id;
            organization_name = organization_name;
            user_id = u.id;
          })
          after
  Joined-Onboarded organization_name w o u before after fresh registered joined = record {
    fresh = fresh;
    organization = o;
    organization_id = refl;
    organization_named = registered.named;
    was_free = registered.was_free;
    organizations =
        ap (λ (db : Db). db.organizations) joined.db
        ∙ ap (λ (db : Db). db.organizations) registered.db;
    user = u;
    user_id = refl;
    user_organization = joined.user_organization;
    user_identity = joined.user_identity;
    user_email = joined.user_email;
    users =
        ap (λ (db : Db). db.users) joined.db ∙ ap (λ (db : Db). db.users ++ u ∷ []) registered.db;
    answered = refl;
    owner = λ follow p known.
        owner-HasPermission o.organization_id identity_id email w.db before after u joined
          registered.defaults follow (sym (ap (λ (db : Db). db.permissions) registered.db)) p known;
  }

  Onboarded-audit :
      (organization_name : String) (before : Db) (result : OnboardingResult)
      → IgnoresAudit (Onboarded identity_id email organization_name before result)
  Onboarded-audit organization_name before result db logs k = record {
    fresh = k.fresh;
    organization = k.organization;
    organization_id = k.organization_id;
    organization_named = k.organization_named;
    was_free = k.was_free;
    organizations = k.organizations;
    user = k.user;
    user_id = k.user_id;
    user_organization = k.user_organization;
    user_identity = k.user_identity;
    user_email = k.user_email;
    users = k.users;
    answered = k.answered;
    owner = λ follow p known.
        let h = k.owner follow p known in
        record {
          user = h.user;
          assignment = h.assignment;
          grant = h.grant;
          permission = h.permission;
          user_listed = h.user_listed;
          assignment_listed = h.assignment_listed;
          grant_listed = h.grant_listed;
          permission_listed = h.permission_listed;
          user_id = h.user_id;
          user_organization = h.user_organization;
          assigned_user = h.assigned_user;
          assigned_in = h.assigned_in;
          granted_role = h.granted_role;
          granted_in = h.granted_in;
          granted = h.granted;
          permission_name = h.permission_name;
        };
  }

  onboard-Onboarded :
      (organization_name : String) (w w' : World) (result : OnboardingResult)
      → any (has_identity identity_id) w.db.users ≡ false
      → onboard true identity_id email organization_name w ≡ (ok result, w')
      → Onboarded identity_id email organization_name w.db result w'.db
  unfolding onboard new_uuid
  onboard-Onboarded organization_name w w' result fresh h =
      let org_id = w.uuid w.drawn in
      let (o, w2, e2, h2) =
        >>=-eq-ok (register_organization org_id organization_name) _
          (record w { drawn = suc w.drawn }) h in
      let (user_id, w3, e3, h3) =
        >>=-eq-ok (create_owner true o.organization_id identity_id email) _ w2 h2 in
      let registered =
        register_organization-Registered org_id organization_name (record w { drawn = suc w.drawn })
          w2 o e2 in
      let registered' : Registered o.organization_id organization_name w.db o w2.db =
        subst (λ id. Registered id organization_name w.db o w2.db) (sym registered.id) registered in
      let (u, same_user, joined) = create_owner-Joined o.organization_id user_id w2 w3 e3 in
      let done = Joined-Onboarded organization_name w o u w2.db w3.db fresh registered' joined in
      let event = onboarding_event o.organization_id user_id organization_name in
      let answer : String → OnboardingResult = λ id. record {
        organization_id = o.organization_id;
        organization_name = organization_name;
        user_id = id;
      } in
      let logged : Onboarded identity_id email organization_name w.db (answer u.id)
          (log event w3).1.db =
        (log-KeepsDb (Onboarded identity_id email organization_name w.db (answer u.id))
            (Onboarded-audit organization_name w.db (answer u.id)) event).at
          w3 done in
      let same : answer u.id ≡ result = ap answer same_user ∙ ground (arith, h3) in
      let last : (log event w3).1.db ≡ w'.db = ground (arith, h3) in
      subst (λ x. Onboarded identity_id email organization_name w.db x w'.db) same
        (subst (Onboarded identity_id email organization_name w.db (answer u.id)) last logged)

  length-select :
      (users : List User)
      → ltb 0 (length (select (has_identity identity_id) users))
        ≡ any (has_identity identity_id) users
  length-select [] = refl
  length-select (u ∷ users) = ground (arith, length-select users)

  has_membership-eq-ok :
      (w w' : World) (has : Bool)
      → has_membership identity_id w ≡ (ok has, w')
      → (w'.db ≡ w.db) × (has ≡ any (has_identity identity_id) w.db.users)
  unfolding has_membership count_users_sql
  has_membership-eq-ok w w' has h =
      let count = count_users_sql identity_id in
      let (n, v, e, k) = >>=-eq-ok (statement count) _ w h in
      let (rs, f) = statement-eq-ok count w e in
      let counted : length (select (has_identity identity_id) w.db.users) ≡ n = ground (arith, f) in
      (
        ground (arith, f, k),
        ground (arith, k) ∙ ap (ltb 0) (sym counted) ∙ length-select w.db.users,
      )

  -- With the atomic creation of users, a successful onboarding of an identity, which had no
  -- membership, added one organization, under an identifier that was free and with the given name,
  -- and one user, which has this identity and email and belongs to this organization; the answer
  -- names both. The user has every permission that exists, provided that the grants in the database
  -- afterwards stand in the organizations of their roles.
  pub complete_onboarding-Onboarded :
      (organization_name : String) (w w' : World) (result : OnboardingResult)
      → complete_onboarding true identity_id email organization_name w ≡ (ok result, w')
      → Onboarded identity_id email organization_name w.db result w'.db
  unfolding complete_onboarding
  complete_onboarding-Onboarded organization_name w w' result h =
      let (has, v, e, k) = >>=-eq-ok (has_membership identity_id) _ w h in
      let (same, known) = has_membership-eq-ok w v has e in
      elim (Bool-cases has) [
        | inl taken ↦ absurd (ground (arith, taken, k))
        | inr fresh ↦
            let ran : onboard true identity_id email organization_name v ≡ (ok result, w') =
              ground (arith, fresh, k) in
            subst (λ (db : Db). Onboarded identity_id email organization_name db result w'.db) same
              (onboard-Onboarded organization_name v w' result
                (ap (λ (db : Db). any (has_identity identity_id) db.users) same ∙ sym known ∙ fresh)
                ran)
      ]
