-- ===== src/Authflow/Handler/Signin.antt =====
-- Who gets a session from the OAuth callback (handler.go).
use mathlib.Core.List.{Memᴰ}
use modular_monolith.Prelude.{
  ℕ, ◌≡◌, ◌⊎◌, inl, inr, refl, sym, ap, ◌∙◌, Bool, false, [], some, arith, any, subst,
}
use modular_monolith.Failure.{Result, ok, Result-cases}
use modular_monolith.Tables.{Db, Identity}
use modular_monolith.Session.{World}
use modular_monolith.Session.Atomic.{outcome_cases}
use modular_monolith.Members.{has_identity, has_memberships}
use modular_monolith.Identities.{find_or_create_identity}
use modular_monolith.Identities.Lookup.{
  Identified, find_or_create_identity-Identified, find_or_create_identity-now,
}
use modular_monolith.Oidc.{Claims}
use modular_monolith.Authflow.User.{SessionUser, normalize_user}
use modular_monolith.Authflow.Cookies.{Cookie}
use modular_monolith.Authflow.Sessions.{Bytes, Session, Codec, SessionManager, set_session}
use modular_monolith.Authflow.Handler.{
  OAuthProvider, AuthHandler, Answer, CallbackRequest, new_handler, identity_service,
  verified_claims, identified, landing, expiry_of, callback, with_session, redirected,
}
use modular_monolith.Authflow.Handler.Verified.{Verified, verified_claims-Verified}
use modular_monolith.Authflow.Handler.Landing.{landing-Lands}

-- The callback gave the browser a session.
pub record SignedIn (oauth : OAuthProvider) (codec : Codec) (sessions : SessionManager)
    (random : Result Bytes) (r : CallbackRequest) (w : World) (x : Answer × World) : Type 0 where
  pub claims : Claims
  pub verified : Verified oauth r claims
  pub identity : Identity
  pub stored :
      Identified (normalize_user claims).subject claims.email claims.name identity x.1.db.identities
  pub cookie : Cookie
  pub written :
      set_session codec sessions random w.now (record {
        user = record (normalize_user claims) { identity_id = identity.id };
        expires_at = expiry_of claims w.now;
      })
      ≡ ok cookie
  pub given : Memᴰ cookie x.0.cookies
  pub status : x.0.status ≡ 302
  pub lands :
      (x.0.location ≡ some "/dashboard")
      ⊎ ((x.0.location ≡ some "/onboarding")
          × ((any (has_identity identity.id) x.1.db.users ≡ false) ⊎ (identity.id ≡ "")))

-- The callback was answered with an error and no cookie; with status 400 nothing changed.
pub record NotSignedIn (w : World) (x : Answer × World) : Type 0 where
  pub no_cookies : x.0.cookies ≡ []
  pub status : ((x.0.status ≡ 400) × (x.1 ≡ w)) ⊎ (x.0.status ≡ 500)

module _ (oauth : OAuthProvider) (codec : Codec) (sessions : SessionManager) (secure : Bool)
    (random : Result Bytes) (r : CallbackRequest) where
  abbrev handler : AuthHandler
  handler = new_handler oauth codec sessions secure

  abbrev user_of : Claims → Identity → SessionUser
  user_of c i = record (normalize_user c) { identity_id = i.id }

  abbrev session_of : Claims → Identity → World → Session
  session_of c i w = record { user = user_of c i; expires_at = expiry_of c w.now }

  -- The rest of the callback for verified claims and a known identity.
  callback_known :
      (w v : World) (c : Claims) (i : Identity)
      → verified_claims handler r ≡ ok c
      → find_or_create_identity (normalize_user c).subject c.email c.name w ≡ (ok i, v)
      → callback handler random r w
        ≡ with_session handler
            (user_of c i)
            (set_session codec sessions random v.now (session_of c i v))
            v
  unfolding callback new_handler identified identity_service normalize_user
  callback_known w v c i checked found = ground (arith, checked, found)

  -- The answer with the session's cookie.
  redirected-SignedIn :
      (w v : World) (c : Claims) (i : Identity) (k : Cookie)
      → Verified oauth r c
      → Identified (normalize_user c).subject c.email c.name i v.db.identities
      → set_session codec sessions random w.now (session_of c i w) ≡ ok k
      → SignedIn oauth codec sessions random r w
          (redirected handler k (landing (some has_memberships) (user_of c i) v))
  redirected-SignedIn w v c i k verified known written =
      let there = landing-Lands (user_of c i) v in
      record {
        claims = c;
        verified = verified;
        identity = i;
        stored =
            subst
              (λ (db : Db). Identified (normalize_user c).subject c.email c.name i db.identities)
              (sym there.db) known;
        cookie = k;
        written = written;
        given = Memᴰ.head refl;
        status = refl;
        lands = elim there.url [
          | inl dashboard ↦ inl (ap some dashboard)
          | inr (onboarding, inl stranger) ↦ inr (
            ap some onboarding,
            inl (ap (λ (db : Db). any (has_identity i.id) db.users) there.db ∙ stranger),
          )
          | inr (onboarding, inr unnamed) ↦ inr (ap some onboarding, inr unnamed)
        ];
      }

  callback-ok :
      (w v : World) (c : Claims) (i : Identity)
      → verified_claims handler r ≡ ok c
      → find_or_create_identity (normalize_user c).subject c.email c.name w ≡ (ok i, v)
      → NotSignedIn w (callback handler random r w)
        ⊎ SignedIn oauth codec sessions random r w (callback handler random r w)
  unfolding new_handler
  callback-ok w v c i checked found =
      let path = callback_known w v c i checked found in
      let subject = (normalize_user c).subject in
      let known = find_or_create_identity-Identified subject c.email c.name w v i found in
      let same_time : v.now ≡ w.now =
        find_or_create_identity-now subject c.email c.name w v i found in
      elim (Result-cases (set_session codec sessions random v.now (session_of c i v))) [
        | inr (e, unset) ↦ inl (record {
          no_cookies = ground (arith, path, unset);
          status = inr (ground (arith, path, unset));
        })
        | inl (k, written) ↦
            let answered : callback handler random r w
                ≡ redirected handler k (landing (some has_memberships) (user_of c i) v) =
              ground (arith, path, written) in
            inr (
              subst (λ x. SignedIn oauth codec sessions random r w x) (sym answered)
                (redirected-SignedIn w v c i k (verified_claims-Verified handler r c checked) known
                  (subst
                    (λ (n : ℕ).
                      set_session codec sessions random n
                        (record { user = user_of c i; expires_at = expiry_of c n })
                      ≡ ok k)
                    same_time written)))
      ]

  -- A callback, as the router sets the handler up, is answered with status 400 and changes nothing,
  -- or with status 500, and without a cookie; or the browser gets a session. Then the state, the
  -- code verifier and the nonce are those of its cookies, the ID token is valid, the session is for
  -- the stored identity of the token's subject, and the browser is sent to the dashboard, or to the
  -- onboarding where the identity has no membership (or its identifier is empty).
  pub callback_cases :
      (w : World)
      → NotSignedIn w (callback handler random r w)
        ⊎ SignedIn oauth codec sessions random r w (callback handler random r w)
  unfolding callback new_handler identified identity_service normalize_user
  callback_cases w = elim (Result-cases (verified_claims handler r)) [
    | inr (e, h) ↦ inl (record {
      no_cookies = ground (arith, h);
      status = inl (ground (arith, h), ground (arith, h));
    })
    | inl (c, h) ↦
        elim (outcome_cases (find_or_create_identity (normalize_user c).subject c.email c.name w)) [
          | inr (e, v, k) ↦
              inl
                (record { no_cookies = ground (arith, h, k); status = inr (ground (arith, h, k)) })
          | inl (i, v, k) ↦ callback-ok w v c i h k
        ]
  ]
