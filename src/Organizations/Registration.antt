-- ===== src/Organizations/Registration.antt =====
-- What a registered organization (internal/service/organization_service.go) is.
use modular_monolith.Prelude.{
  String, ◌==◌, ◌≡◌, List, any, false, sym, inl, inr, [], ◌∷◌, ◌++◌, arith, ◌∙◌, ap, subst,
}
use modular_monolith.Failure.{Result, ok}
use modular_monolith.Tables.{Db, Organization, RoleRow, RolePermissionRow, AuditLog}
use modular_monolith.Session.{World, statement, set_tenant_context, set_tenant, with_transaction}
use modular_monolith.Session.Atomic.{statement-eq-ok, with_transaction_cases}
use modular_monolith.Session.Inversion.{>>=-eq-ok, map_error-eq-ok}
use modular_monolith.Audit.Effect.{IgnoresAudit, ignored_log-KeepsDb}
use modular_monolith.Rbac.Defaults.{
  HasDefaults, HasDefaults-same_rbac, with_roles, bootstrap_default_roles_tx-HasDefaults,
}
use modular_monolith.Rbac.Repository.{bootstrap_default_roles_tx}
use modular_monolith.Organizations.{
  organization_exists, register_organization, register_organization_tx, create_organization,
  insert_organization_sql, log_organization,
}

-- What a registration did: a new organization with the default roles, and nothing else but audit
-- entries.
pub record Registered (organization_id name : String) (before : Db) (o : Organization) (after : Db)
    : Type 0 where
  pub id : o.organization_id ≡ organization_id
  pub zitadel_id : o.zitadel_org_id ≡ organization_id
  pub named : o.name ≡ name
  pub was_free :
      any (λ (p : Organization). p.zitadel_org_id == organization_id) before.organizations ≡ false
  pub db : after ≡ record before {
    organizations = before.organizations ++ o ∷ [];
    roles = after.roles;
    role_permissions = after.role_permissions;
    audit_logs = after.audit_logs;
  }
  pub defaults : HasDefaults organization_id before after

-- The database with these organizations, roles, grants and audit entries.
abbrev framed : Db → List Organization → List RoleRow → List RolePermissionRow → List AuditLog → Db
framed before organizations roles grants logs = record before {
  organizations = organizations;
  roles = roles;
  role_permissions = grants;
  audit_logs = logs;
}

module _ (organization_id name : String) where
  create_organization-eq-ok :
      (w w' : World) (o : Organization)
      → create_organization organization_id name w ≡ (ok o, w')
      → (o.organization_id ≡ organization_id)
        × (o.zitadel_org_id ≡ organization_id)
        × (o.name ≡ name)
        × (any (λ (p : Organization). p.zitadel_org_id == organization_id) w.db.organizations
            ≡ false)
        × (w'.db ≡ record (w.db) { organizations = w.db.organizations ++ o ∷ [] })
  unfolding create_organization insert_organization_sql
  create_organization-eq-ok w w' o h =
      let insert = insert_organization_sql organization_id name in
      let (rs, ran) =
        statement-eq-ok insert w (map_error-eq-ok (statement insert) w organization_exists h) in
      (
        ground (arith, ran),
        ground (arith, ran),
        ground (arith, ran),
        ground (arith, ran),
        ground (arith, ran),
      )

  register_organization_tx-Registered :
      (w w' : World) (o : Organization)
      → register_organization_tx organization_id name w ≡ (ok o, w')
      → Registered organization_id name w.db o w'.db
  unfolding register_organization_tx set_tenant_context
  register_organization_tx-Registered w w' o h =
      let (_, w1, e1, h1) = >>=-eq-ok (set_tenant_context organization_id) _ w h in
      let (v, w2, e2, h2) = >>=-eq-ok (create_organization organization_id name) _ w1 h1 in
      let (_, w3, e3, h3) = >>=-eq-ok (bootstrap_default_roles_tx v.organization_id) _ w2 h2 in
      let (rs1, f1) = statement-eq-ok (set_tenant organization_id) w e1 in
      let (same_id, zitadel_id, named, free, inserted) = create_organization-eq-ok w1 w2 v e2 in
      let (defaults, frame) = bootstrap_default_roles_tx-HasDefaults v.organization_id w2 w3 e3 in
      let start : w1.db ≡ w.db = ground (arith, f1) in
      let same : v ≡ o = ground (arith, h3) in
      let last : w3.db ≡ w'.db = ground (arith, h3) in
      let created =
        inserted
        ∙ ap (λ (db : Db). record db { organizations = db.organizations ++ v ∷ [] }) start in
      let here : HasDefaults organization_id w2.db w3.db =
        subst (λ id. HasDefaults id w2.db w3.db) same_id defaults in
      let after_creation : HasDefaults organization_id w.db w3.db =
        HasDefaults-same_rbac w2.db w.db (ap (λ (db : Db). db.permissions) created)
          (ap (λ (db : Db). db.roles) created) (ap (λ (db : Db). db.role_permissions) created)
          here in
      let unlogged =
        frame ∙ ap (λ (db : Db). with_roles db w3.db.roles w3.db.role_permissions) created in
      subst (λ x. Registered organization_id name w.db x w'.db) same
        (subst (Registered organization_id name w.db v) last (record {
          id = same_id;
          zitadel_id = zitadel_id;
          named = named;
          was_free =
              ap
                (λ (db : Db).
                  any (λ (p : Organization). p.zitadel_org_id == organization_id) db.organizations)
                (sym start)
              ∙ free;
          db =
              unlogged
              ∙ ap (framed w.db (w.db.organizations ++ v ∷ []) w3.db.roles w3.db.role_permissions)
                  (sym (ap (λ (db : Db). db.audit_logs) unlogged));
          defaults = after_creation;
        }))

  Registered-audit :
      (before : Db) (o : Organization) → IgnoresAudit (Registered organization_id name before o)
  Registered-audit before o db logs k = record {
    id = k.id;
    zitadel_id = k.zitadel_id;
    named = k.named;
    was_free = k.was_free;
    db = ap (λ (x : Db). record x { audit_logs = logs }) k.db;
    defaults = record {
      roles = k.defaults.roles;
      grants = k.defaults.grants;
      new_roles = k.defaults.new_roles;
      new_grants = k.defaults.new_grants;
    };
  }

  pub register_organization-Registered :
      (w w' : World) (o : Organization)
      → register_organization organization_id name w ≡ (ok o, w')
      → Registered organization_id name w.db o w'.db
  unfolding register_organization
  register_organization-Registered w w' o h =
      let tx = register_organization_tx organization_id name in
      let (v, w1, e, k) = >>=-eq-ok (with_transaction tx) _ w h in
      let registered : Registered organization_id name w.db v w1.db =
        elim (with_transaction_cases tx w) [
          | inr b ↦ absurd (ground (arith, b.result, e))
          | inl (rs, c) ↦
              let same : c.value ≡ v = ground (arith, c.result, e) in
              let db : c.final.db ≡ w1.db = ground (arith, c.result, e) in
              subst (λ x. Registered organization_id name w.db x w1.db) same
                (subst (Registered organization_id name w.db c.value) db (
                  register_organization_tx-Registered (record w { replies = rs }) c.final c.value
                    c.ran))
        ] in
      let logged : Registered organization_id name w.db v (log_organization v w1).1.db =
        (ignored_log-KeepsDb (Registered organization_id name w.db v) (Registered-audit w.db v)
            _).at
          w1 registered in
      let same : v ≡ o = ground (arith, k) in
      subst (λ x. Registered organization_id name w.db x w'.db) same
        (subst (λ (x : Result Organization × World). Registered organization_id name w.db v x.1.db)
          k logged)
