-- ===== src/Billing/Invariant.antt =====
-- The billing repository keeps at most one subscription for each organization, and a call for one
-- organization leaves the subscriptions of the others as they are.
use modular_monolith.Prelude.{
  String, ◌≡◌, refl, ◌≢◌, Bool, true, false, List, [], ◌∷◌, ◌++◌, Option, none, some, arith, eq_iff,
  any, find, select, select-append, map, if◌then◌else◌, ℕ, ◌∙◌,
}
use mathlib.Core.List.{append-nil}
use modular_monolith.Tables.{Db, Subscription}
use modular_monolith.Session.{World}
use modular_monolith.Session.Transactions.{KeepsDb, with_tenant_query-KeepsDb}
use modular_monolith.Session.Keeps.{Keeps-statement, Keeps-map_error}
use modular_monolith.Billing.Repository.{
  is_of, names_subscription, renewed, reported, Report, new_subscription, insert_subscription_sql,
  update_subscription_sql, upsert_row, upsert_subscription_sql, already_exists, not_found,
  create_subscription, update_subscription, upsert_subscription_by_provider,
}
use modular_monolith.Billing.Unique.{HasOneEach, HasOneEach-append, map-HasOneEach}

pub data Call : Type 0 where
  creates : (provider plan status : String) → Call
  updates : (id plan status : String) (period_end : Option ℕ) → Call
  upserts : (provider : String) → Report → Call

-- The world after a call of the repository.
unfoldable pub step : String → Call → World → World
step organization_id (creates provider plan status) w =
    (create_subscription organization_id provider plan status w).1
step organization_id (updates id plan status period_end) w =
    (update_subscription id organization_id plan status period_end w).1
step organization_id (upserts provider r) w =
    (upsert_subscription_by_provider organization_id provider r w).1

unfoldable pub run : List (String × Call) → World → World
run [] w = w
run ((organization_id, call) ∷ calls) w = run calls (step organization_id call w)

-- The statements keep `P`; so does every call.
record StatementsKeep (P : Db → Type 0) (organization_id : String) : Type 0 where
  insert :
      (provider plan status : String)
      → KeepsDb P (insert_subscription_sql organization_id provider plan status)
  update :
      (id plan status : String) (period_end : Option ℕ)
      → KeepsDb P (update_subscription_sql id organization_id plan status period_end)
  upsert :
      (provider : String) (r : Report)
      → KeepsDb P (upsert_subscription_sql organization_id provider r)

step-keeps :
    (P : Db → Type 0) (organization_id : String)
    → StatementsKeep P organization_id
    → (call : Call) (w : World) → P w.db
    → P (step organization_id call w).db
unfolding step create_subscription update_subscription upsert_subscription_by_provider
step-keeps P organization_id keep (creates provider plan status) =
    (Keeps-map_error already_exists _ (
      with_tenant_query-KeepsDb P _ (Keeps-statement _ (keep.insert provider plan status))
        organization_id)).at
step-keeps P organization_id keep (updates id plan status period_end) =
    (Keeps-map_error not_found _ (
      with_tenant_query-KeepsDb P _ (Keeps-statement _ (keep.update id plan status period_end))
        organization_id)).at
step-keeps P organization_id keep (upserts provider r) =
    (with_tenant_query-KeepsDb P _ (Keeps-statement _ (keep.upsert provider r)) organization_id).at

pub any_of_find :
    (organization_id : String) (rows : List Subscription)
    → find (is_of organization_id) rows ≡ none
    → any (is_of organization_id) rows ≡ false
any_of_find organization_id [] h = refl
any_of_find organization_id (s ∷ rows) h = ground (arith, h, any_of_find organization_id rows)

-- A test that does not change the organization of a row does not change it in either branch.
pub same_organization :
    (b : Bool) (s t : Subscription)
    → t.organization_id ≡ s.organization_id
    → (if b then t else s).organization_id ≡ s.organization_id
same_organization b s t e = ground (arith, e)

upsert_row-HasOneEach :
    (organization_id provider : String) (r : Report) (w : World) (found : Option Subscription)
    → find (is_of organization_id) w.db.subscriptions ≡ found
    → HasOneEach w.db.subscriptions
    → HasOneEach (upsert_row organization_id provider r found w).1.db.subscriptions
unfolding upsert_row
upsert_row-HasOneEach organization_id provider r w none missing u = ground (
  arith,
  HasOneEach-append w.db.subscriptions
      (new_subscription w organization_id provider (some r.provider_customer_id)
        (some r.provider_subscription_id) r.plan r.status r.current_period_end)
      u (any_of_find organization_id w.db.subscriptions missing),
)
upsert_row-HasOneEach organization_id provider r w (some old) found u = ground (
  arith,
  u,
  map-HasOneEach (λ (s : Subscription). if is_of organization_id s then reported w r s else s)
      (λ s. same_organization (is_of organization_id s) s (reported w r s) refl) w.db.subscriptions
      u,
)

-- What the other organizations' rows are after a change of rows of one organization.
module _ (organization_id tenant : String) (other : organization_id ≢ tenant) where
  select-append_other :
      (rows : List Subscription) (s : Subscription)
      → s.organization_id ≡ organization_id
      → select (is_of tenant) (rows ++ s ∷ []) ≡ select (is_of tenant) rows
  select-append_other rows s e =
      select-append (is_of tenant) rows (s ∷ [])
      ∙ ground
          (arith, e, eq_iff organization_id tenant, other, append-nil (select (is_of tenant) rows))

  select-map_other :
      (b : Subscription → Bool) (f : Subscription → Subscription) (rows : List Subscription)
      → ((s : Subscription) → b s ≡ true → s.organization_id ≡ organization_id)
      → ((s : Subscription) → (f s).organization_id ≡ s.organization_id)
      → select (is_of tenant) (map (λ (s : Subscription). if b s then f s else s) rows)
        ≡ select (is_of tenant) rows
  select-map_other b f [] hb hf = refl
  select-map_other b f (s ∷ rows) hb hf =
      ground
        (arith, hb s, hf s, other, eq_iff s.organization_id tenant, select-map_other b f rows hb hf)

  upsert_row-other :
      (provider : String) (r : Report) (w : World) (found : Option Subscription)
      → select (is_of tenant) (upsert_row organization_id provider r found w).1.db.subscriptions
        ≡ select (is_of tenant) w.db.subscriptions
  unfolding upsert_row
  upsert_row-other provider r w none = ground (
    arith,
    select-append_other w.db.subscriptions
        (new_subscription w organization_id provider (some r.provider_customer_id)
          (some r.provider_subscription_id) r.plan r.status r.current_period_end)
        refl,
  )
  upsert_row-other provider r w (some old) = ground (
    arith,
    select-map_other (is_of organization_id) (reported w r) w.db.subscriptions
        (λ s h. (eq_iff s.organization_id organization_id).0 h) (λ s. refl),
  )

  StatementsKeep-other :
      (v : List Subscription)
      → StatementsKeep (λ db. select (is_of tenant) db.subscriptions ≡ v) organization_id
  unfolding insert_subscription_sql update_subscription_sql upsert_subscription_sql
  StatementsKeep-other v = record {
    insert = λ provider plan status. record {
      at = λ w h. ground (
        arith,
        h,
        select-append_other w.db.subscriptions
            (new_subscription w organization_id provider none none plan status none) refl,
      );
    };
    update = λ id plan status period_end. record {
      at = λ w h.
          select-map_other (names_subscription id organization_id)
            (renewed w plan status period_end) w.db.subscriptions
            (λ s e. ground (arith, e, eq_iff s.organization_id organization_id)) (λ s. refl)
          ∙ h;
    };
    upsert = λ provider r. record { at = λ w h. upsert_row-other provider r w _ ∙ h };
  }

  -- A call for one organization, whether it succeeds or fails, leaves the subscriptions of every
  -- other organization as they were.
  pub step-subscriptions_isolated :
      (call : Call) (w : World)
      → select (is_of tenant) (step organization_id call w).db.subscriptions
        ≡ select (is_of tenant) w.db.subscriptions
  step-subscriptions_isolated call w =
      step-keeps
        (λ db. select (is_of tenant) db.subscriptions ≡ select (is_of tenant) w.db.subscriptions)
        organization_id (StatementsKeep-other (select (is_of tenant) w.db.subscriptions)) call w
        refl

StatementsKeep-one :
    (organization_id : String) → StatementsKeep (λ db. HasOneEach db.subscriptions) organization_id
unfolding insert_subscription_sql update_subscription_sql upsert_subscription_sql
StatementsKeep-one organization_id = record {
  insert = λ provider plan status. record {
    at = λ w u. ground (
      arith,
      HasOneEach-append w.db.subscriptions
          (new_subscription w organization_id provider none none plan status none) u,
    );
  };
  update = λ id plan status period_end. record {
    at = λ w u. map-HasOneEach _ (λ s. same_organization _ s _ refl) w.db.subscriptions u;
  };
  upsert = λ provider r. record {
    at = λ w u. upsert_row-HasOneEach organization_id provider r w _ refl u;
  };
}

pub step-HasOneEach :
    (organization_id : String) (call : Call) (w : World)
    → HasOneEach w.db.subscriptions
    → HasOneEach (step organization_id call w).db.subscriptions
step-HasOneEach organization_id =
    step-keeps (λ db. HasOneEach db.subscriptions) organization_id
      (StatementsKeep-one organization_id)

-- In every history of calls, with any failures of the connection, an organization has at most
-- one subscription, if it was so at the start.
pub run-HasOneEach :
    (calls : List (String × Call)) (w : World)
    → HasOneEach w.db.subscriptions
    → HasOneEach (run calls w).db.subscriptions
unfolding run
run-HasOneEach [] w u = u
run-HasOneEach ((organization_id, call) ∷ calls) w u =
    run-HasOneEach calls (step organization_id call w) (step-HasOneEach organization_id call w u)
