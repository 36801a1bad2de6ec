-- ===== src/Oidc/Keys/Published.antt =====
-- A key that the cache gives out was published by the provider (jwks.go).
use mathlib.Core.List.{Memᴰ}
use modular_monolith.Prelude.{
  ℕ, ◌+◌, ◌<◌, String, ◌==◌, ◌≡◌, ◌⊎◌, inl, inr, refl, sym, ap, ◌∙◌, List, [], ◌∷◌, none, some,
  arith, eq_iff, Bool-cases, Option-cases, ltb,
}
use modular_monolith.Failure.{Result, ok, err}
use modular_monolith.Oidc.Keys.{
  Jwk, PublicKey, Keys, JwksCache, new_jwks_cache, jwks_cache_ttl, put_key, rsa_public_key, key_map,
  refresh, key, refreshed_key,
}

-- A call of the cache: the key's identifier, the time, what the provider would answer, and the time
-- when the answer would be read.
pub record Call : Type 0 where
  pub kid : String
  pub now : ℕ
  pub fetched_at : ℕ
  pub answer : Result (List Jwk)

module _ (decode : String → Result (List ℕ)) where
  -- The cache after calls, the newest first.
  unfoldable pub cache_after : List Call → JwksCache
  cache_after [] = new_jwks_cache
  cache_after (c ∷ calls) = (key decode c.kid c.now c.fetched_at c.answer (cache_after calls)).1

  -- This call, or an earlier one whose answer was read less than five minutes before, found this key
  -- in what the provider answered then.
  pub record IsPublished (current : Call) (k : PublicKey) (calls : List Call) : Type 0 where
    pub call : Call
    pub made : (call ≡ current) ⊎ (Memᴰ call calls × (current.now < call.fetched_at + 300000000000))
    pub set : List Jwk
    pub answered : call.answer ≡ ok set
    pub jwk : Jwk
    pub listed : Memᴰ jwk set
    pub same_kid : jwk.kid ≡ current.kid
    pub usable : rsa_public_key decode jwk ≡ ok k

  put_key_cases :
      (j : Jwk) (r : Result PublicKey) (keys : Keys) (kid : String) (k : PublicKey)
      → put_key j.kid r keys kid ≡ some k
      → ((j.kid ≡ kid) × (r ≡ ok k)) ⊎ (keys kid ≡ some k)
  put_key_cases j (err e) keys kid k h = inr h
  put_key_cases j (ok x) keys kid k h = elim (Bool-cases (j.kid == kid)) [
    | inl same ↦ inl (ground (arith, same, eq_iff j.kid kid), ground (arith, same, h))
    | inr other ↦ inr (ground (arith, other, h))
  ]

  -- Where a key of the map comes from.
  key_map_cases :
      (set : List Jwk) (keys : Keys) (kid : String) (k : PublicKey)
      → key_map decode set keys kid ≡ some k
      → ((j : Jwk) × Memᴰ j set × (j.kid ≡ kid) × (rsa_public_key decode j ≡ ok k))
        ⊎ (keys kid ≡ some k)
  unfolding key_map
  key_map_cases [] keys kid k h = inr h
  key_map_cases (j ∷ set) keys kid k h =
      elim (key_map_cases set (put_key j.kid (rsa_public_key decode j) keys) kid k h) [
        | inl (x, m, same, usable) ↦ inl (x, Memᴰ.tail m, same, usable)
        | inr old ↦ elim (put_key_cases j (rsa_public_key decode j) keys kid k old) [
          | inl (same, usable) ↦ inl (j, Memᴰ.head refl, same, usable)
          | inr older ↦ inr older
        ]
      ]

  -- The keys of the cache are those of an earlier call, until that call's set expires.
  record IsCached (calls : List Call) (c : JwksCache) : Type 0 where
    cached :
        (c.expires_at ≡ 0)
        ⊎ ((call : Call) × (set : List Jwk) × Memᴰ call calls
            × (call.answer ≡ ok set)
            × (c.keys ≡ key_map decode set (λ kid. none))
            × (c.expires_at ≡ call.fetched_at + jwks_cache_ttl))

  IsCached-tail :
      (call : Call) (calls : List Call) (c : JwksCache)
      → IsCached calls c
      → IsCached (call ∷ calls) c
  IsCached-tail call calls c i = record {
    cached = elim i.cached [
      | inl empty ↦ inl empty
      | inr (x, set, m, a, ks, e) ↦ inr (x, set, Memᴰ.tail m, a, ks, e)
    ];
  }

  -- What a call may leave in the cache and give out.
  record IsSafe (call : Call) (calls : List Call) (x : Result PublicKey × JwksCache) : Type 0 where
    leaves : IsCached (call ∷ calls) x.1
    gives : (k : PublicKey) → x.0 ≡ ok k → IsPublished call k calls

  answered-IsSafe :
      (call : Call) (calls : List Call) (c : JwksCache) (answer : Result (List Jwk))
      → call.answer ≡ answer
      → IsCached calls c
      → IsSafe call calls (refreshed_key call.kid c (refresh decode call.fetched_at answer c))
  unfolding refresh
  answered-IsSafe call calls c (err e) a i = record {
    leaves = IsCached-tail call calls c i;
    gives = λ k h. absurd (ground (arith, h));
  }
  answered-IsSafe call calls c (ok set) a i =
      let keys = key_map decode set (λ kid. none) in
      let c' : JwksCache = record { keys = keys; expires_at = call.fetched_at + jwks_cache_ttl } in
      let leaves : IsCached (call ∷ calls) c' = record {
        cached = inr (call, set, Memᴰ.head refl, a, refl, refl);
      } in
      elim (Option-cases (keys call.kid)) [
        | inl missing ↦
            rw missing (record { leaves = leaves; gives = λ k h. absurd (ground (arith, h)) })
        | inr (k', found) ↦ rw found (record {
          leaves = leaves;
          gives = λ k h.
              elim (key_map_cases set (λ kid. none) call.kid k (found ∙ ground (arith, h))) [
                | inr nothing ↦ absurd (ground (arith, nothing))
                | inl (j, m, same, usable) ↦ record {
                  call = call;
                  made = inl refl;
                  set = set;
                  answered = a;
                  jwk = j;
                  listed = m;
                  same_kid = same;
                  usable = usable;
                }
              ];
        })
      ]

  cached-IsSafe :
      (call : Call) (calls : List Call) (c : JwksCache) (k : PublicKey)
      → IsCached calls c
      → call.now < c.expires_at
      → c.keys call.kid ≡ some k
      → IsSafe call calls (ok k, c)
  cached-IsSafe call calls c k i early held = record {
    leaves = IsCached-tail call calls c i;
    gives = λ k' h. elim i.cached [
      | inl empty ↦ absurd (ground (arith, early, empty))
      | inr (x, set, m, a, ks, e) ↦
          elim (key_map_cases set (λ kid. none) call.kid k'
            (ap (λ (keys : Keys). keys call.kid) (sym ks) ∙ held ∙ ground (arith, h))) [
              | inr nothing ↦ absurd (ground (arith, nothing))
              | inl (j, n, same, usable) ↦ record {
                call = x;
                made = inr (m, ground (arith, early, e));
                set = set;
                answered = a;
                jwk = j;
                listed = n;
                same_kid = same;
                usable = usable;
              }
            ]
    ];
  }

  key-IsSafe :
      (call : Call) (calls : List Call) (c : JwksCache)
      → IsCached calls c
      → IsSafe call calls (key decode call.kid call.now call.fetched_at call.answer c)
  unfolding key
  key-IsSafe call calls c i = elim (Bool-cases (ltb call.now c.expires_at)) [
    | inr late ↦ rw late (answered-IsSafe call calls c call.answer refl i)
    | inl early ↦ elim (Option-cases (c.keys call.kid)) [
      | inl missing ↦ rw early (rw missing (answered-IsSafe call calls c call.answer refl i))
      | inr (k, held) ↦
          rw early (rw held (cached-IsSafe call calls c k i (ground (arith, early)) held))
    ]
  ]

  cache_after-IsCached : (calls : List Call) → IsCached calls (cache_after calls)
  unfolding cache_after new_jwks_cache
  cache_after-IsCached [] = record { cached = inl refl }
  cache_after-IsCached (c ∷ calls) =
      (key-IsSafe c calls (cache_after calls) (cache_after-IsCached calls)).leaves

  -- After any calls on a new cache, a key that the next call gives out was published: this call, or
  -- one whose answer was read less than five minutes before it began, had an answer of the provider
  -- with a usable entry of this identifier for this key.
  pub key-IsPublished :
      (call : Call) (calls : List Call) (k : PublicKey)
      → (key decode call.kid call.now call.fetched_at call.answer (cache_after calls)).0 ≡ ok k
      → IsPublished call k calls
  key-IsPublished call calls k h =
      (key-IsSafe call calls (cache_after calls) (cache_after-IsCached calls)).gives k h
