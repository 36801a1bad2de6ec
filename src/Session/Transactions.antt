-- ===== src/Session/Transactions.antt =====
-- Consequences of `with_tenant_query_cases` for the repositories: atomicity, invariants, and what
-- happens when the connection answers.
use modular_monolith.Prelude.{String, ◌≡◌, ◌≢◌, inl, inr, [], arith, eq_iff, subst, sym}
use modular_monolith.Failure.{Error, Result, ok, err}
use modular_monolith.Tables.{Db}
use modular_monolith.Session.{
  World, M, statement, round_trip, set_tenant_context, commit, in_transaction, with_transaction,
  with_tenant_query, statement,
}
use modular_monolith.Session.Atomic.{with_tenant_query_cases, with_transaction_cases, tenant_start}

module _ {A : Type 0} (organization_id : String) (fn : M A) (w : World) where
  -- A tenant transaction that reports an error leaves the database as it was, whatever statements
  -- ran before the error and whatever the connection replied.
  pub with_tenant_query-rolls_back :
      {e : Error} {w' : World} → with_tenant_query organization_id fn w ≡ (err e, w') → w'.db ≡ w.db
  with_tenant_query-rolls_back h = elim (with_tenant_query_cases organization_id fn w) [
    | inl (_, rs, c) ↦ absurd (ground (arith, c.result, h))
    | inr b ↦ ground (arith, b.result, b.db, h)
  ]

  -- The tenant setting never outlives its transaction: after the call it is what it was before.
  pub with_tenant_query-tenant : (with_tenant_query organization_id fn w).1.tenant ≡ w.tenant
  with_tenant_query-tenant = elim (with_tenant_query_cases organization_id fn w) [
    | inl (_, rs, c) ↦ rw c.result
    | inr b ↦ rw b.result b.tenant
  ]

-- An action that keeps a property of the database, on success and on error.
pub record KeepsDb {A : Type 0} (P : Db → Type 0) (m : M A) : Type 0 where
  pub at : (w : World) → P w.db → P (m w).1.db

module _ {A : Type 0} (P : Db → Type 0) (fn : M A) (keep : KeepsDb P fn) where
  pub with_tenant_query-KeepsDb :
      (organization_id : String) → KeepsDb P (with_tenant_query organization_id fn)
  with_tenant_query-KeepsDb organization_id = record {
    at = λ w h. elim (with_tenant_query_cases organization_id fn w) [
      | inl (_, rs, c) ↦
          rw c.result (subst (λ (x : Result A × World). P x.1.db) c.ran (keep.at _ h))
      | inr b ↦ rw b.result (subst P (sym b.db) h)
    ];
  }

  pub with_transaction-KeepsDb : KeepsDb P (with_transaction fn)
  with_transaction-KeepsDb = record {
    at = λ w h. elim (with_transaction_cases fn w) [
      | inl (rs, c) ↦ rw c.result (subst (λ (x : Result A × World). P x.1.db) c.ran (keep.at _ h))
      | inr b ↦ rw b.result (subst P (sym b.db) h)
    ];
  }

-- The connection answers: no reply of the schedule is a failure.
abbrev pub Answers : World → Type 0
Answers w = w.replies ≡ []

module _ {A : Type 0} (organization_id : String) (fn : M A) (w : World) {final : World} where
  pub with_tenant_query_ok :
      {a : A}
      → Answers w
      → Answers final
      → organization_id ≢ ""
      → fn (tenant_start organization_id w []) ≡ (ok a, final)
      → with_tenant_query organization_id fn w ≡ (ok a, record final { tenant = w.tenant })
  unfolding with_tenant_query in_transaction commit set_tenant_context round_trip
  with_tenant_query_ok q q' named e = ground (arith, eq_iff organization_id "")

module _ {A : Type 0} (run : M A) (w : World) where
  pub statement_ok : Answers w → statement run w ≡ run w
  unfolding round_trip
  statement_ok q = ground arith
