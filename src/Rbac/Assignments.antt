-- ===== src/Rbac/Assignments.antt =====
-- Assigning a role to a user and taking it away (repository.go): what a success means, and that
-- one call undoes the other.
use modular_monolith.Prelude.{
  String, ◌==◌, ◌≡◌, refl, ◌≢◌, inl, inr, true, false, List, [], ◌∷◌, ◌++◌, some, not, any, select,
  find, arith, eq_refl, ◌∙◌, ap, ap₂, select-append, select-not_of_none, find-append_of_none,
}
use modular_monolith.Failure.{ok}
use modular_monolith.Tables.{User, UserRole}
use modular_monolith.Session.{World, statement}
use modular_monolith.Session.Atomic.{with_tenant_query_cases, statement-eq-ok, tenant_start}
use modular_monolith.Session.Transactions.{Answers, with_tenant_query_ok, statement_ok}
use mathlib.Core.List.{append-nil}
use modular_monolith.Rbac.Statements.{has_role_id}
use modular_monolith.Rbac.Queries.{
  is_assignment, with_assignments, insert_user_role_sql, delete_user_role_sql,
}
use modular_monolith.Rbac.Repository.{assign_role_to_user, remove_role_from_user}

-- What a tenant transaction around one statement did, if it returned a value.
module _ (organization_id user_id role_id : String) (w : World) where
  -- The assignment was new, its user and its role exist, and it is the only change.
  pub record Assigned (a : UserRole) (w' : World) : Type 0 where
    pub named : organization_id ≢ ""
    pub fresh : any (is_assignment organization_id user_id role_id) w.db.user_roles ≡ false
    pub user : any (λ (u : User). u.id == user_id) w.db.users ≡ true
    pub role : has_role_id organization_id role_id w.db.roles ≡ true
    pub row : a ≡ record {
      id = w.uuid w.drawn;
      organization_id = organization_id;
      user_id = user_id;
      role_id = role_id;
      created_at = w.now;
    }
    pub db : w'.db ≡ record (w.db) { user_roles = w.db.user_roles ++ a ∷ [] }

  pub assign_role_to_user-Assigned :
      (a : UserRole) (w' : World)
      → assign_role_to_user organization_id user_id role_id w ≡ (ok a, w')
      → Assigned a w'
  unfolding assign_role_to_user insert_user_role_sql
  assign_role_to_user-Assigned a w' h =
      elim (with_tenant_query_cases organization_id
        (statement (insert_user_role_sql organization_id user_id role_id)) w) [
          | inr b ↦ absurd (ground (arith, b.result, h))
          | inl (named, rs, c) ↦
              let (rs', ran) =
                statement-eq-ok (insert_user_role_sql organization_id user_id role_id)
                  (tenant_start organization_id w rs) c.ran in
              record {
                named = named;
                fresh = ground (arith, ran);
                user = ground (arith, ran);
                role = ground (arith, ran);
                row = ground (arith, ran, c.result, h);
                db = ground (arith, ran, c.result, h);
              }
        ]

  -- The statement of `RemoveRoleFromUser` on a table whose last row is the only one it names.
  delete_after_insert :
      (start : World) (rows : List UserRole) (a : UserRole)
      → start.db.user_roles ≡ rows ++ a ∷ []
      → any (is_assignment organization_id user_id role_id) rows ≡ false
      → is_assignment organization_id user_id role_id a ≡ true
      → delete_user_role_sql organization_id user_id role_id start
        ≡ (ok a, with_assignments start rows)
  unfolding delete_user_role_sql
  delete_after_insert start rows a e fresh key =
      let matches = is_assignment organization_id user_id role_id in
      let found : find matches start.db.user_roles ≡ some a =
        ap (find matches) e
        ∙ find-append_of_none matches rows (a ∷ []) fresh
        ∙ ground (arith, key) in
      let left : select (λ x. not (matches x)) start.db.user_roles ≡ rows =
        ap (select (λ x. not (matches x))) e
        ∙ select-append (λ x. not (matches x)) rows (a ∷ [])
        ∙ ap₂ (◌++◌ {A = UserRole}) (select-not_of_none matches rows fresh) (ground (arith, key))
        ∙ append-nil rows in
      ground (arith, found, left)

  -- Taking a role away right after it was assigned succeeds, returns the assignment and leaves the
  -- database as it was before, if the connection answers.
  pub assign-remove :
      (a : UserRole) (w' : World)
      → assign_role_to_user organization_id user_id role_id w ≡ (ok a, w')
      → Answers w'
      → (w'' : World) × (remove_role_from_user organization_id user_id role_id w' ≡ (ok a, w''))
        × (w''.db ≡ w.db)
  unfolding remove_role_from_user
  assign-remove a w' h answers =
      let d = assign_role_to_user-Assigned a w' h in
      let start = tenant_start organization_id w' [] in
      let final = with_assignments start w.db.user_roles in
      let deleted : delete_user_role_sql organization_id user_id role_id start ≡ (ok a, final) =
        delete_after_insert start w.db.user_roles a (ground (arith, d.db)) d.fresh
          (ground (arith, d.row, eq_refl organization_id, eq_refl user_id, eq_refl role_id)) in
      (
        record final { tenant = w'.tenant },
        ground (
          arith,
          with_tenant_query_ok organization_id
              (statement (delete_user_role_sql organization_id user_id role_id)) w' {final = final}
              {a = a} answers refl d.named
              (statement_ok (delete_user_role_sql organization_id user_id role_id) start refl
                ∙ deleted),
        ),
        ground (arith, d.db),
      )
