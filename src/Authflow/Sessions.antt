-- ===== src/Authflow/Sessions.antt =====
-- internal/modules/authflow/session.go and pkce.go: sessions in sealed cookies, and random tokens.
-- The cipher, base64, encoding/json and sha256 are parameters, and so is what the source of
-- randomness gives.
pub mod Roundtrip
use modular_monolith.Prelude.{
  ℕ, String, Bool, true, not, List, ◌++◌, ◌+◌, ◌/◌, if◌then◌else◌, leb, length, take, drop,
}
use modular_monolith.Prelude.Int.{ℤ, pos, negsuc, ◌-ℤ◌, ◌*ℤ◌, leb_ℤ}
use modular_monolith.Failure.{Error, Result, ok, err, message, wrap, ◌>>=◌, ◌>>◌, on_error, require}
use modular_monolith.Authflow.User.{SessionUser}
use modular_monolith.Authflow.Cookies.{Cookie, lax, session_cookie_name, cookie_value, unix}

abbrev pub Bytes : Type 0
Bytes = List ℕ

pub record Session : Type 0 where
  pub user : SessionUser
  pub expires_at : ℤ

-- `cipher.AEAD`, under the key of the session manager
pub record Aead : Type 0 where
  pub nonce_size : ℕ
  pub seal : Bytes → Bytes → Bytes
  pub open_sealed : Bytes → Bytes → Result Bytes

-- `base64.RawURLEncoding`, encoding/json for a `Session`, and `sha256.Sum256`
pub record Codec : Type 0 where
  pub encode : Bytes → String
  pub decode : String → Result Bytes
  pub marshal : Session → Result Bytes
  pub unmarshal : Bytes → Result Session
  pub sum256 : String → Bytes

pub record SessionManager : Type 0 where
  pub aead : Aead
  pub secure : Bool

abbrev pub invalid_session : Error
invalid_session = message "invalid session"

abbrev to_invalid : {A : Type 0} → Result A → Result A
to_invalid = on_error (λ e. invalid_session)

-- `int(d.Seconds())`, which rounds toward zero.
unfoldable pub whole_seconds : ℤ → ℤ
whole_seconds (pos n) = pos (n / 1000000000)
whole_seconds (negsuc n) = pos 0 -ℤ pos ((n + 1) / 1000000000)

-- The nonce is what the source of randomness gave.
unfoldable pub set_session : Codec → SessionManager → Result Bytes → ℕ → Session → Result Cookie
unfolding whole_seconds ◌-ℤ◌ ◌*ℤ◌
set_session codec m random now session = do
  payload ← on_error (wrap "marshal session") (codec.marshal session)
  nonce ← on_error (wrap "generate session nonce") random
  let sealed = nonce ++ m.aead.seal nonce payload
  ok (record {
    name = session_cookie_name;
    value = codec.encode sealed;
    path = "/";
    expires = session.expires_at;
    max_age = whole_seconds (session.expires_at *ℤ pos 1000000000 -ℤ pos now);
    http_only = true;
    secure = m.secure;
    same_site = lax;
  })

unfoldable pub get_session : Codec → SessionManager → List (String × String) → ℕ → Result Session
unfolding cookie_value unix
get_session codec m cookies now = do
  value ← to_invalid (cookie_value session_cookie_name cookies)
  sealed ← to_invalid (codec.decode value)
  require (not (leb (length sealed) m.aead.nonce_size)) invalid_session
  payload ←
      to_invalid
        (m.aead.open_sealed (take m.aead.nonce_size sealed) (drop m.aead.nonce_size sealed))
  session ← to_invalid (codec.unmarshal payload)
  require (not (leb_ℤ session.expires_at (pos (unix now)))) invalid_session
  ok session

unfoldable pub clear_session : SessionManager → Cookie
clear_session m = record {
  name = session_cookie_name;
  value = "";
  path = "/";
  expires = pos 0;
  max_age = negsuc 0;
  http_only = true;
  secure = m.secure;
  same_site = lax;
}

-- 32 bytes of the source of randomness
unfoldable pub random_token : Codec → Result Bytes → Result String
random_token codec random = do
  bytes ← on_error (wrap "generate random token") random
  ok (codec.encode bytes)

unfoldable pub code_challenge : Codec → String → String
code_challenge codec verifier = codec.encode (codec.sum256 verifier)
