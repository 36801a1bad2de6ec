-- ===== src/Session/Atomic.antt =====
-- What a transaction guarantees, whatever runs in it and whatever the connection replies.
use modular_monolith.Prelude.{
  String, ◌≡◌, refl, sym, ◌∙◌, subst, ◌≢◌, ◌⊎◌, inl, inr, List, [], ◌∷◌, Option, none, some, arith,
  Bool-cases, eq_iff, ◌==◌,
}
use modular_monolith.Failure.{Error, Result, ok, err, message, wrap}
use modular_monolith.Tables.{Db}
use modular_monolith.Session.{
  statement, World, M, reply, round_trip, set_tenant_context, in_transaction, with_transaction,
  with_tenant_query, map_error, ◌>>◌,
}

-- Split on the outcome of a call and keep the equation.
pub outcome_cases :
    {A : Type 0} (x : Result A × World)
    → ((a : A) × (w : World) × (x ≡ (ok a, w))) ⊎ ((e : Error) × (w : World) × (x ≡ (err e, w)))
outcome_cases (ok a, w) = inl (a, w, refl)
outcome_cases (err e, w) = inr (e, w, refl)

-- What `fn` starts from inside `with_tenant_query`.
abbrev pub tenant_start : String → World → List (Option Error) → World
tenant_start organization_id w rs = record w { tenant = some organization_id; replies = rs }

-- A round trip changes nothing but the schedule of replies.
pub round_trip_cases :
    (w : World)
    → ((rs : List (Option Error)) × (round_trip w ≡ (ok tt, record w { replies = rs })))
      ⊎ ((e : Error) × (rs : List (Option Error)) × (round_trip w
            ≡ (err e, record w { replies = rs })))
unfolding round_trip
round_trip_cases w = go w.replies
  where
    go :
        (l : List (Option Error))
        → ((rs : List (Option Error)) × (reply l w ≡ (ok tt, record w { replies = rs })))
          ⊎ ((e : Error) × (rs : List (Option Error)) × (reply l w
                ≡ (err e, record w { replies = rs })))
    go [] = inl (w.replies, refl)
    go (none ∷ rest) = inl (rest, refl)
    go (some e ∷ rest) = inr (e, rest, refl)

module _ {A : Type 0} where
  -- The transaction's body ran from `start`, returned `value`, and its database was committed.
  pub record Committed (fn : M A) (w start : World) (x : Result A × World) : Type 0 where
    pub value : A
    pub final : World
    pub replies : List (Option Error)
    pub ran : fn start ≡ (ok value, final)
    pub result : x ≡ (ok value, record final { replies = replies; tenant = w.tenant })

  -- The call failed and left the database and the tenant setting as they were.
  pub record RolledBack (w : World) (x : Result A × World) : Type 0 where
    pub error : Error
    pub final : World
    pub result : x ≡ (err error, final)
    pub db : final.db ≡ w.db
    pub tenant : final.tenant ≡ w.tenant

  pub in_transaction_cases :
      (fn : M A) (w : World)
      → Committed fn w w (in_transaction fn w) ⊎ RolledBack w (in_transaction fn w)
  unfolding in_transaction
  in_transaction_cases fn w = elim (outcome_cases (fn w)) [
    | inl (a, w', e) ↦ elim (round_trip_cases w') [
      | inl (rs, r) ↦
          inl
            (record { value = a; final = w'; replies = rs; ran = e; result = ground (arith, e, r) })
      | inr (x, rs, r) ↦ inr (record {
        error = x;
        final = record w' { replies = rs; db = w.db; tenant = w.tenant };
        result = ground (arith, e, r);
        db = refl;
        tenant = refl;
      })
    ]
    | inr (x, w', e) ↦ inr (record {
      error = x;
      final = record w' { db = w.db; tenant = w.tenant };
      result = ground (arith, e);
      db = refl;
      tenant = refl;
    })
  ]

module _ {A : Type 0} (organization_id : String) (fn : M A) (w : World) where
  abbrev tenant_body : M A
  tenant_body = map_error (wrap "set tenant context") (set_tenant_context organization_id) >> fn

  tenant_body-eq-ok :
      (v : World) {a : A} {final : World}
      → tenant_body v ≡ (ok a, final)
      → (rs : List (Option Error)) × (fn (tenant_start organization_id v rs) ≡ (ok a, final))
  unfolding set_tenant_context
  tenant_body-eq-ok v e = elim (round_trip_cases v) [
    | inl (rs, r) ↦ (rs, ground (arith, r, e))
    | inr (x, rs, r) ↦ absurd (ground (arith, r, e))
  ]

  pub with_tenant_query_cases :
      ((organization_id ≢ "")
        × (rs : List (Option Error)) × Committed fn w
            (tenant_start organization_id w rs)
            (with_tenant_query organization_id fn w))
      ⊎ RolledBack w (with_tenant_query organization_id fn w)
  unfolding with_tenant_query
  with_tenant_query_cases = elim (Bool-cases (organization_id == "")) [
    | inl empty ↦ inr (record {
      error = message "organization ID must not be empty";
      final = w;
      result = rw empty;
      db = refl;
      tenant = refl;
    })
    | inr named ↦ elim (round_trip_cases w) [
      | inr (x, rs, r) ↦ inr (record {
        error = wrap "begin tenant tx" x;
        final = record w { replies = rs };
        result = ground (arith, named, r);
        db = refl;
        tenant = refl;
      })
      | inl (rs, r) ↦ elim (in_transaction_cases tenant_body (record w { replies = rs })) [
        | inl c ↦
            let (rs', ran) = tenant_body-eq-ok (record w { replies = rs }) c.ran in
            inl (
              (λ e. ground (arith, named, eq_iff organization_id "")),
              rs',
              record {
                value = c.value;
                final = c.final;
                replies = c.replies;
                ran = ran;
                result = ground (arith, named, r, c.result);
              },
            )
        | inr b ↦ inr (record {
          error = b.error;
          final = b.final;
          result = ground (arith, named, r, b.result);
          db = b.db;
          tenant = b.tenant;
        })
      ]
    ]
  ]

module _ {A : Type 0} (fn : M A) (w : World) where
  pub with_transaction_cases :
      ((rs : List (Option Error)) × Committed fn w
          (record w { replies = rs })
          (with_transaction fn w))
      ⊎ RolledBack w (with_transaction fn w)
  unfolding with_transaction
  with_transaction_cases = elim (round_trip_cases w) [
    | inr (x, rs, r) ↦ inr (record {
      error = x;
      final = record w { replies = rs };
      result = ground (arith, r);
      db = refl;
      tenant = refl;
    })
    | inl (rs, r) ↦ elim (in_transaction_cases fn (record w { replies = rs })) [
      | inl c ↦ inl (
        rs,
        record {
          value = c.value;
          final = c.final;
          replies = c.replies;
          ran = c.ran;
          result = ground (arith, r, c.result);
        },
      )
      | inr b ↦ inr (record {
        error = b.error;
        final = b.final;
        result = ground (arith, r, b.result);
        db = b.db;
        tenant = b.tenant;
      })
    ]
  ]

module _ {A : Type 0} (run : M A) (w : World) where
  pub statement_cases :
      ((rs : List (Option Error)) × (statement run w ≡ run (record w { replies = rs })))
      ⊎ ((e : Error) × (rs : List (Option Error)) × (statement run w
            ≡ (err e, record w { replies = rs })))
  statement_cases = elim (round_trip_cases w) [
    | inl (rs, r) ↦ inl (rs, ground (arith, r))
    | inr (x, rs, r) ↦ inr (x, rs, ground (arith, r))
  ]

  -- Inversion of a successful statement.
  pub statement-eq-ok :
      {a : A} {w' : World}
      → statement run w ≡ (ok a, w')
      → (rs : List (Option Error)) × (run (record w { replies = rs }) ≡ (ok a, w'))
  statement-eq-ok e = elim statement_cases [
    | inl (rs, r) ↦ (rs, sym r ∙ e)
    | inr (x, rs, r) ↦ absurd (ground (arith, r, e))
  ]

  -- What holds of the database before the statement and after its run holds after the statement.
  pub statement-KeepsDb :
      (P : Db → Type 0)
      → ((rs : List (Option Error)) → P (run (record w { replies = rs })).1.db)
      → P w.db
      → P (statement run w).1.db
  statement-KeepsDb P after before = elim statement_cases [
    | inl (rs, r) ↦ subst (λ (x : Result A × World). P x.1.db) (sym r) (after rs)
    | inr (x, rs, r) ↦ subst (λ (x : Result A × World). P x.1.db) (sym r) before
  ]
