-- ===== src/Session.antt =====
-- internal/database/tenant.go and internal/repository/tx.go: what a request does to the database,
-- as a state monad with Go errors. A `World` is the database with its environment: the replies of
-- the connection, the clock, the identifiers that Postgres generates and its collation.
pub mod Atomic
pub mod Transactions
pub mod Keeps
pub mod Inversion
use modular_monolith.Prelude.{
  ℕ, suc, ◌+◌, String, ◌==◌, Bool, List, [], ◌∷◌, Option, none, some, if◌then◌else◌,
}
use modular_monolith.Failure.{Error, Result, ok, err, PgPackage, pg_error, message, wrap}
use modular_monolith.Tables.{Db}

pub record World : Type 0 where
  pub db : Db
  -- `app.current_organization_id`, as `set_config` left it in this transaction
  pub tenant : Option String
  -- the replies to the next round trips: `some e` is a failed one; after the list all succeed
  pub replies : List (Option Error)
  pub now : ℕ
  -- `gen_random_uuid()`: the values, and how many are used
  pub uuid : ℕ → String
  pub drawn : ℕ
  -- the order of texts in ORDER BY
  pub collate : String → String → Bool
  -- the Go package whose `PgError` the pool returns
  pub driver : PgPackage

abbrev pub M : Type 0 → Type 0
M A = World → Result A × World

module _ {A : Type 0} where
  abbrev pub pure : A → M A
  pure a w = (ok a, w)

  abbrev pub fail : Error → M A
  fail e w = (err e, w)

  abbrev pub relabel : (Error → Error) → Result A × World → Result A × World
  relabel f (ok a, w) = (ok a, w)
  relabel f (err e, w) = (err (f e), w)

  -- `if err != nil { return f(err) }`
  abbrev pub map_error : (Error → Error) → M A → M A
  map_error f m w = relabel f (m w)

module _ {A B : Type 0} where
  abbrev pub continue : (A → M B) → Result A × World → Result B × World
  continue f (ok a, w) = f a w
  continue f (err e, w) = (err e, w)

  infixl 5 ◌>>=◌
  abbrev pub ◌>>=◌ : M A → (A → M B) → M B
  ◌>>=◌ m f w = continue f (m w)

module _ {B : Type 0} where
  infixl 5 ◌>>◌
  abbrev pub ◌>>◌ : M (Unit {0}) → M B → M B
  m >> k = m >>= λ _. k

reply : List (Option Error) → M (Unit {0})
reply [] w = (ok tt, w)
reply (none ∷ rest) w = (ok tt, record w { replies = rest })
reply (some e ∷ rest) w = (err e, record w { replies = rest })

-- One exchange with Postgres.
unfoldable pub round_trip : M (Unit {0})
unfolding reply
round_trip w = reply w.replies w

-- A statement: it fails on the way, or Postgres runs it.
abbrev pub statement : {A : Type 0} → M A → M A
statement run = round_trip >> run

-- A constraint violation, as the pool reports it.
abbrev pub violation : {A : Type 0} → String → String → M A
violation code constraint w = (err (pg_error w.driver code constraint), w)

-- SELECT set_config('app.current_organization_id', $1, true)
abbrev pub set_tenant : String → M (Unit {0})
set_tenant organization_id w = (ok tt, record w { tenant = some organization_id })

unfoldable pub set_tenant_context : String → M (Unit {0})
set_tenant_context organization_id = statement (set_tenant organization_id)

commit : {A : Type 0} → A → M A
commit a = do round_trip; pure a

-- ROLLBACK: rows and setting are those from before BEGIN.
abbrev rollback : World → World → World
rollback before w = record w { db = before.db; tenant = before.tenant }

-- `defer tx.Rollback(ctx)`; `set_config(.., true)` ends with the transaction either way. An error of
-- COMMIT is taken as the server's, which has rolled back by then; that the server commits and its
-- reply is lost is left out.
abbrev close : {A : Type 0} → World → Result A × World → Result A × World
close before (ok a, w) = (ok a, record w { tenant = before.tenant })
close before (err e, w) = (err e, rollback before w)

unfoldable pub in_transaction : {A : Type 0} → M A → M A
unfolding commit
in_transaction fn w = close w ((fn >>= commit) w)

-- `Repository.WithTransaction`
unfoldable pub with_transaction : {A : Type 0} → M A → M A
with_transaction fn = do round_trip; in_transaction fn

unfoldable pub with_tenant_query : {A : Type 0} → String → M A → M A
with_tenant_query organization_id fn =
    if organization_id == "" then fail (message "organization ID must not be empty") else do
      map_error (wrap "begin tenant tx") round_trip
      in_transaction
          do map_error (wrap "set tenant context") (set_tenant_context organization_id); fn
