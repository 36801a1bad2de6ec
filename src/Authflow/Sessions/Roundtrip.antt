-- ===== src/Authflow/Sessions/Roundtrip.antt =====
-- What `set` writes, `get` reads until the session expires (session.go).
use modular_monolith.Prelude.{ℕ, ◌≡◌, ◌<◌, ◌++◌, arith, length}
use modular_monolith.Failure.{Result, ok, >>=-ok, on_error-ok, on_error, wrap}
use modular_monolith.Authflow.Cookies.{Cookie, session_cookie_name}
use modular_monolith.Authflow.Sessions.{Bytes, Session, Aead, Codec, SessionManager, set_session}

-- What the documentation of `cipher.AEAD` and encoding/base64 promises: a sealed text opens, it is
-- longer than its nonce, and decoding undoes encoding.
pub record IsSound (codec : Codec) (aead : Aead) : Type 0 where
  pub opens :
      (nonce plain : Bytes)
      → length nonce ≡ aead.nonce_size
      → aead.open_sealed nonce (aead.seal nonce plain) ≡ ok plain
  pub tagged : (nonce plain : Bytes) → 0 < length (aead.seal nonce plain)
  pub decodes : (b : Bytes) → codec.decode (codec.encode b) ≡ ok b

-- The bytes of the session's JSON stand for the session.
abbrev pub IsFaithful : Codec → Session → Type 0
IsFaithful codec s = (b : Bytes) → codec.marshal s ≡ ok b → codec.unmarshal b ≡ ok s

module _ (codec : Codec) (m : SessionManager) (random : Result Bytes) (now : ℕ) (s : Session)
    (c : Cookie) where
  -- The parts of a cookie that was written.
  pub set_session-parts :
      set_session codec m random now s ≡ ok c
      → (payload nonce : Bytes) × (codec.marshal s ≡ ok payload)
        × (random ≡ ok nonce)
        × (c.value ≡ codec.encode (nonce ++ m.aead.seal nonce payload))
        × (c.name ≡ session_cookie_name)
  unfolding set_session
  set_session-parts h =
      let (payload, p, h1) = >>=-ok (on_error (wrap "marshal session") (codec.marshal s)) _ h in
      let (nonce, n, h2) = >>=-ok (on_error (wrap "generate session nonce") random) _ h1 in
      (
        payload,
        nonce,
        on_error-ok (wrap "marshal session") (codec.marshal s) p,
        on_error-ok (wrap "generate session nonce") random n,
        ground (arith, h2),
        ground (arith, h2),
      )
