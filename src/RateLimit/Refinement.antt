-- ===== src/RateLimit/Refinement.antt =====
-- The rate limiter with its cleanup decides as one limiter for each key that is kept for ever.
use modular_monolith.Prelude.{
  ℕ, ◌+◌, ◌-◌, ◌<◌, ◌≤◌, String, ◌==◌, ◌≡◌, refl, sym, ap, ap₂, Bool, List, [], ◌∷◌, Option, none,
  some, inl, inr, if◌then◌else◌, ltb, arith, Bool-cases,
}
use modular_monolith.RateLimit.{
  Limiter, stale_timeout, Visitor, Visitors, no_visitors, state_of, allow_visitor, sweep, Event,
  request, cleanup, time_of, decisions,
}

-- What the limiter's documentation gives: a bucket that nobody used for longer than the stale
-- timeout is full again, so it answers as a new one does.
abbrev pub Refills : Limiter → Type 0
Refills l =
    (s : l.State) (used later : ℕ)
    → used + stale_timeout < later
    → l.allow later (l.allow used s).1 ≡ l.allow later l.fresh

-- Events come in the order of their times.
abbrev pub InOrder : ℕ → List Event → Type 0
InOrder now [] = Unit
InOrder now (e ∷ events) = (now ≤ time_of e) × InOrder (time_of e) events

module _ (l : Limiter) where
  open l use {State, fresh, allow}

  -- The specification: a limiter for each key, and no cleanup.
  abbrev pub Limiters : Type 0
  Limiters = String → State

  abbrev pub update : String → State → Limiters → Limiters
  update key s f k = if key == k then s else f k

  unfoldable pub ideal_decisions : List Event → Limiters → List Bool
  ideal_decisions [] f = []
  ideal_decisions (request key now ∷ events) f =
      let (allowed, s) = allow now (f key) in allowed ∷ ideal_decisions events (update key s f)
  ideal_decisions (cleanup now ∷ events) f = ideal_decisions events f

  -- A stored visitor holds the limiter of its key, which was used when it was seen last; a key
  -- without visitor has a limiter that answers as a new one from now on.
  abbrev Tracked : Option (Visitor l) → State → ℕ → Type 0
  Tracked none s now = (t : ℕ) → now ≤ t → allow t s ≡ allow t fresh
  Tracked (some v) s now =
      (before : State) × (s ≡ (allow v.last_seen before).1) × (s ≡ v.limiter) × (v.last_seen ≤ now)

  Tracks : Visitors l → Limiters → ℕ → Type 0
  Tracks m f now = (key : String) → Tracked (m key) (f key) now

  Tracked-later :
      (o : Option (Visitor l)) (s : State) (now t : ℕ) → now ≤ t → Tracked o s now → Tracked o s t
  Tracked-later none s now t le h = λ u le'. h u (omega arith)
  Tracked-later (some v) s now t le (before, e, is, seen) = (before, e, is, omega arith)

  -- The limiter of the key answers as the stored one, or a new one, does.
  same_answer :
      (o : Option (Visitor l)) (s : State) (now : ℕ)
      → Tracked o s now
      → allow now (state_of l o) ≡ allow now s
  same_answer none s now h = sym (h now (omega arith))
  same_answer (some v) s now (before, e, is, seen) = ap (allow now) (sym is)

  Tracks-request :
      (key : String) (now : ℕ) (m : Visitors l) (f : Limiters)
      → Tracks m f now
      → Tracks (allow_visitor l key now m).1 (update key (allow now (f key)).1 f) now
  unfolding Tracks allow_visitor
  Tracks-request key now m f h k = elim (Bool-cases (key == k)) [
    | inl same ↦ rw same (
      f key,
      refl,
      sym (ap (λ (p : Bool × State). p.1) (same_answer (m key) (f key) now (h key))),
      omega arith,
    )
    | inr other ↦ rw other (h k)
  ]

  keep_recent-Tracked :
      (refills : Refills l) (o : Option (Visitor l)) (s : State) (now : ℕ) (key : String)
      → Tracked o s now
      → Tracked (sweep l now (λ k. o) key) s now
  unfolding sweep
  keep_recent-Tracked refills none s now key h = h
  keep_recent-Tracked refills (some v) s now key (before, e, is, seen) =
      elim (Bool-cases (ltb stale_timeout (now - v.last_seen))) [
        | inl stale ↦
            rw stale (λ t le. rw e (refills before v.last_seen t (ground (arith, stale, seen, le))))
        | inr recent ↦ rw recent (before, e, is, seen)
      ]

  Tracks-cleanup :
      (refills : Refills l) (now : ℕ) (m : Visitors l) (f : Limiters)
      → Tracks m f now
      → Tracks (sweep l now m) f now
  unfolding Tracks sweep
  Tracks-cleanup refills now m f h key = keep_recent-Tracked refills (m key) (f key) now key (h key)

  nobody_tracked : Tracks (no_visitors l) (λ key. fresh) 0
  unfolding Tracks
  nobody_tracked key t le = refl

  decisions_tracked :
      (refills : Refills l) (events : List Event) (now : ℕ) (m : Visitors l) (f : Limiters)
      → InOrder now events
      → Tracks m f now
      → decisions l events m ≡ ideal_decisions events f
  unfolding decisions ideal_decisions Tracks allow_visitor
  decisions_tracked refills [] now m f ordered h = refl
  decisions_tracked refills (request key t ∷ events) now m f (le, ordered) h =
      let here : Tracks m f t = λ k. Tracked-later (m k) (f k) now t le (h k) in
      let answer = same_answer (m key) (f key) t (here key) in
      ap₂ (λ (b : Bool) (bs : List Bool). b ∷ bs) (ap (λ (p : Bool × State). p.0) answer)
        (decisions_tracked refills events t (allow_visitor l key t m).1
          (update key (allow t (f key)).1 f) ordered (Tracks-request key t m f here))
  decisions_tracked refills (cleanup t ∷ events) now m f (le, ordered) h =
      decisions_tracked refills events t (sweep l t m) f ordered
        (Tracks-cleanup refills t m f (λ k. Tracked-later (m k) (f k) now t le (h k)))

-- The rate limiter refines its specification: for events in the order of their times, from the
-- start on, its requests are allowed and refused as if every key had a limiter of its own that is
-- never removed, whenever the cleanup runs. The limiter refills within the stale timeout.
pub decisions-ideal :
    (l : Limiter) (events : List Event)
    → Refills l
    → InOrder 0 events
    → decisions l events (no_visitors l) ≡ ideal_decisions l events (λ key. l.fresh)
decisions-ideal l events refills ordered =
    decisions_tracked l refills events 0 (no_visitors l) (λ key. l.fresh) ordered (nobody_tracked l)
