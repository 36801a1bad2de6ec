-- ===== src/Session/Inversion.antt =====
-- What a successful call tells of its parts.
use modular_monolith.Prelude.{String, ◌≡◌, ◌≢◌, List, Option, inl, inr, arith, ◌∙◌}
use modular_monolith.Failure.{Error, ok}
use modular_monolith.Session.{World, M, ◌>>=◌, map_error, with_tenant_query, statement}
use modular_monolith.Session.Atomic.{
  outcome_cases, with_tenant_query_cases, tenant_start, statement-eq-ok,
}

module _ {A B : Type 0} (m : M A) (f : A → M B) (w : World) where
  pub >>=-eq-ok :
      {b : B} {w'' : World}
      → (m >>= f) w ≡ (ok b, w'')
      → (a : A) × (w' : World) × (m w ≡ (ok a, w')) × (f a w' ≡ (ok b, w''))
  >>=-eq-ok h = elim (outcome_cases (m w)) [
    | inl (a, w', e) ↦ (a, w', e, ground (arith, e, h))
    | inr (x, w', e) ↦ absurd (ground (arith, e, h))
  ]

module _ {A : Type 0} (m : M A) (w : World) where
  pub map_error-eq-ok :
      (g : Error → Error) {a : A} {w' : World} → map_error g m w ≡ (ok a, w') → m w ≡ (ok a, w')
  map_error-eq-ok g h = elim (outcome_cases (m w)) [
    | inl (a, w', e) ↦ ground (arith, e, h)
    | inr (x, w', e) ↦ absurd (ground (arith, e, h))
  ]

-- A tenant transaction that returned a value: its body ran with the tenant set, and what the body
-- left in the database was committed.
pub record TenantRun {A : Type 0} (organization_id : String) (fn : M A) (w : World) (a : A)
    (w' : World) : Type 0 where
  pub named : organization_id ≢ ""
  pub start_replies : List (Option Error)
  pub final : World
  pub ran : fn (tenant_start organization_id w start_replies) ≡ (ok a, final)
  pub db : w'.db ≡ final.db

module _ {A : Type 0} (organization_id : String) (w : World) where
  pub with_tenant_query-eq-ok :
      (fn : M A) {a : A} {w' : World}
      → with_tenant_query organization_id fn w ≡ (ok a, w')
      → TenantRun organization_id fn w a w'
  with_tenant_query-eq-ok fn h = elim (with_tenant_query_cases organization_id fn w) [
    | inr b ↦ absurd (ground (arith, b.result, h))
    | inl (named, rs, c) ↦ record {
      named = named;
      start_replies = rs;
      final = c.final;
      ran = c.ran ∙ ground (arith, c.result, h);
      db = ground (arith, c.result, h);
    }
  ]

  -- The same for a transaction of one statement.
  pub tenant_statement-eq-ok :
      (run : M A) {a : A} {w' : World}
      → with_tenant_query organization_id (statement run) w ≡ (ok a, w')
      → TenantRun organization_id run w a w'
  tenant_statement-eq-ok run h =
      let t = with_tenant_query-eq-ok (statement run) h in
      let (rs, ran) = statement-eq-ok run (tenant_start organization_id w t.start_replies) t.ran in
      record { named = t.named; start_replies = rs; final = t.final; ran = ran; db = t.db }
