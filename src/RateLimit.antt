-- ===== src/RateLimit.antt =====
-- internal/middleware/ratelimit.go. The limiter of golang.org/x/time/rate is a parameter: its
-- state, the state of a new one, and `Allow` at a time. The calls of one rate limiter and the
-- sweeps of its cleanup are a list of events. `get` holds the mutex and `Allow` has one of its own;
-- the two are taken as one step, at one reading of the clock: a request does not wait between them
-- until it counts as stale. Times are in nanoseconds.
pub mod Refinement
use modular_monolith.Prelude.{
  ℕ, ◌-◌, String, ◌==◌, Bool, true, false, not, List, [], ◌∷◌, Option, none, some, if◌then◌else◌,
  ltb,
}
use modular_monolith.Session.{World}
use modular_monolith.Access.{AuthenticatedUser, Context, Response, Handler, refuse}

pub record Limiter : Type 1 where
  pub State : Type 0
  pub fresh : State
  pub allow : ℕ → State → Bool × State

-- `staleTimeout`: three minutes
abbrev pub stale_timeout : ℕ
stale_timeout = 180000000000

-- `clientIP`; the first argument is the host of `RemoteAddr` where it can be split.
unfoldable pub client_ip : Option String → String → String
client_ip (some host) remote_addr = host
client_ip none remote_addr = remote_addr

-- The key of AuthenticatedRateLimit: the user, or else the address.
unfoldable pub authenticated_key : Option AuthenticatedUser → String → String
authenticated_key none ip = ip
authenticated_key (some u) ip = if u.user_id == "" then ip else u.user_id

module _ (l : Limiter) where
  open l use {State, fresh, allow}

  pub record Visitor : Type 0 where
    pub limiter : State
    pub last_seen : ℕ

  -- `map[string]*visitor`
  abbrev pub Visitors : Type 0
  Visitors = String → Option Visitor

  abbrev pub no_visitors : Visitors
  no_visitors key = none

  abbrev pub put_visitor : String → Visitor → Visitors → Visitors
  put_visitor key v m k = if key == k then some v else m k

  abbrev pub state_of : Option Visitor → State
  state_of none = fresh
  state_of (some v) = v.limiter

  -- `rl.get(key).Allow()`: the visitor is there afterwards, seen now.
  unfoldable pub allow_visitor : String → ℕ → Visitors → Bool × Visitors
  allow_visitor key now m =
      let (allowed, s) = allow now (state_of (m key)) in
      (allowed, put_visitor key (record { limiter = s; last_seen = now }) m)

  abbrev keep_recent : ℕ → Option Visitor → Option Visitor
  keep_recent now none = none
  keep_recent now (some v) = if ltb stale_timeout (now - v.last_seen) then none else some v

  -- One round of `cleanup`.
  unfoldable pub sweep : ℕ → Visitors → Visitors
  sweep now m key = keep_recent now (m key)

  abbrev limited : Handler → Context → World → Bool × Visitors → (Response × World) × Visitors
  limited next c w (true, m) = (next c w, m)
  limited next c w (false, m) = (refuse 429 "rate limit exceeded" w, m)

  -- The middleware around a handler, for a request of this key.
  unfoldable pub rate_limited :
      String → ℕ → Handler → Visitors → Context → World → (Response × World) × Visitors
  rate_limited key now next m c w = limited next c w (allow_visitor key now m)

pub data Event : Type 0 where
  request : String → ℕ → Event
  cleanup : ℕ → Event

abbrev pub time_of : Event → ℕ
time_of (request key now) = now
time_of (cleanup now) = now

-- The decisions for the requests, in order.
module _ (l : Limiter) where
  unfoldable pub decisions : List Event → Visitors l → List Bool
  decisions [] m = []
  decisions (request key now ∷ events) m =
      let (allowed, m') = allow_visitor l key now m in allowed ∷ decisions events m'
  decisions (cleanup now ∷ events) m = decisions events (sweep l now m)
