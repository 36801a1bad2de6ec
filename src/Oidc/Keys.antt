-- ===== src/Oidc/Keys.antt =====
-- internal/providers/identity/jwks.go: the cached keys of the OIDC provider. The HTTP client with
-- its JSON is a parameter, and base64 is one. Times are in nanoseconds.
pub mod Published
use modular_monolith.Prelude.{
  ℕ, ◌+◌, ◌*◌, ◌%◌, ◌^◌, String, ◌==◌, Bool, true, false, not, ◌&&◌, ◌||◌, List, [], ◌∷◌, Option,
  none, some, if◌then◌else◌, ltb,
}
use modular_monolith.Prelude.Int.{ℤ, pos, negsuc, leb_ℤ}
use modular_monolith.Prelude.Int64.{int64}
use modular_monolith.Failure.{Error, Result, ok, err, message, wrap, ◌>>=◌, ◌>>◌, on_error, require}

pub record Jwk : Type 0 where
  pub kid : String
  pub kty : String
  pub alg : String
  pub use_of : String
  pub n : String
  pub e : String

pub record PublicKey : Type 0 where
  pub modulus : ℕ
  pub exponent : ℤ

-- `new(big.Int).SetBytes(b)`, big-endian
unfoldable pub number_from : ℕ → List ℕ → ℕ
number_from n [] = n
number_from n (b ∷ bytes) = number_from (n * 256 + b) bytes

abbrev invalid_jwk : String → Error
invalid_jwk part = wrap part (message "invalid jwk")

-- `Int64` of an exponent takes its low 64 bits.
unfoldable pub rsa_public_key : (String → Result (List ℕ)) → Jwk → Result PublicKey
unfolding number_from int64
rsa_public_key decode j = do
  require
      (not (
        j.kid == ""
        || not (j.kty == "RSA")
        || (not (j.use_of == "") && not (j.use_of == "sig"))
        || (not (j.alg == "") && not (j.alg == "RS256"))))
      (message "invalid jwk")
  modulus ← on_error (λ e. invalid_jwk "modulus") (decode j.n)
  exponent ← on_error (λ e. invalid_jwk "exponent") (decode j.e)
  let e = int64 (pos (number_from 0 exponent))
  require (not (leb_ℤ e (pos 0))) (invalid_jwk "exponent")
  ok (record { modulus = number_from 0 modulus; exponent = e })

-- `map[string]*rsa.PublicKey`
abbrev pub Keys : Type 0
Keys = String → Option PublicKey

pub record JwksCache : Type 0 where
  pub keys : Keys
  pub expires_at : ℕ

unfoldable pub new_jwks_cache : JwksCache
new_jwks_cache = record { keys = λ kid. none; expires_at = 0 }

-- `jwksCacheTTL`: five minutes
abbrev pub jwks_cache_ttl : ℕ
jwks_cache_ttl = 300000000000

abbrev pub put_key : String → Result PublicKey → Keys → Keys
put_key kid (err e) keys = keys
put_key kid (ok key) keys = λ k. if kid == k then some key else keys k

-- The loop of `refresh`: keys that cannot be read are skipped, a later one replaces an earlier one.
unfoldable pub key_map : (String → Result (List ℕ)) → List Jwk → Keys → Keys
unfolding rsa_public_key
key_map decode [] keys = keys
key_map decode (j ∷ set) keys = key_map decode set (put_key j.kid (rsa_public_key decode j) keys)

-- `refresh`, for the set that the provider answers with, and the time when it is read.
unfoldable pub refresh :
    (String → Result (List ℕ)) → ℕ → Result (List Jwk) → JwksCache → Result JwksCache
unfolding key_map
refresh decode fetched_at (err e) c = err e
refresh decode fetched_at (ok set) c =
    ok
      (record { keys = key_map decode set (λ kid. none); expires_at = fetched_at + jwks_cache_ttl })

abbrev pub found_key : JwksCache → Option PublicKey → Result PublicKey × JwksCache
found_key c none = (err (message "jwks key not found"), c)
found_key c (some key) = (ok key, c)

abbrev pub refreshed_key : String → JwksCache → Result JwksCache → Result PublicKey × JwksCache
refreshed_key kid c (err e) = (err e, c)
refreshed_key kid c (ok c') = found_key c' (c'.keys kid)

abbrev cached_key :
    String → JwksCache → Result JwksCache → Option PublicKey → Result PublicKey × JwksCache
cached_key kid c fetched (some key) = (ok key, c)
cached_key kid c fetched none = refreshed_key kid c fetched

-- `key`: the cached key while the cache is fresh and has it, or that of a new set. `answer` is what
-- the provider would answer now, and `fetched_at` when that would be read.
unfoldable pub key :
    (String → Result (List ℕ))
    → String
    → ℕ
    → ℕ
    → Result (List Jwk)
    → JwksCache
    → Result PublicKey × JwksCache
unfolding refresh
key decode kid now fetched_at answer c =
    let fetched = refresh decode fetched_at answer c in
    if ltb now c.expires_at
    then cached_key kid c fetched (c.keys kid)
    else refreshed_key kid c fetched
