-- ===== src/Tests/Crypto.antt =====
-- A codec and a cipher that meet what sessions ask of them, and a small OAuth provider.
use modular_monolith.Prelude.{
  ℕ, zero, suc, String, ◌==◌, ◌≡◌, refl, true, List, [], ◌∷◌, some, if◌then◌else◌, arith,
}
use modular_monolith.Prelude.Int.{pos}
use modular_monolith.Failure.{Result, ok, err, message}
use modular_monolith.Oidc.{Claims, TokenResponse}
use modular_monolith.Authflow.User.{SessionUser, normalize_user}
use modular_monolith.Authflow.Sessions.{Bytes, Session, Aead, Codec, SessionManager}
use modular_monolith.Authflow.Sessions.Roundtrip.{IsSound}
use modular_monolith.Authflow.Handler.{OAuthProvider}

-- A number as strokes, ended by a dot.
unfoldable pub tally : ℕ → String → String
tally zero s = String.◌∷◌ "." s
tally (suc n) s = String.◌∷◌ "I" (tally n s)

unfoldable pub tallies : List ℕ → String
unfolding tally
tallies [] = ""
tallies (n ∷ b) = tally n (tallies b)

unfoldable pub add_one : Result Bytes → Result Bytes
add_one (err e) = err e
add_one (ok []) = err (message "no number")
add_one (ok (n ∷ b)) = ok (suc n ∷ b)

unfoldable pub add_zero : Result Bytes → Result Bytes
add_zero (err e) = err e
add_zero (ok b) = ok (0 ∷ b)

unfoldable pub count_tallies : String → Result Bytes
unfolding add_one add_zero
count_tallies String.[] = ok []
count_tallies (String.◌∷◌ c s) =
    let rest = count_tallies s in
    if String.◌∷◌ c String.[] == "." then add_zero rest else add_one rest

count_tallies-tally :
    (n : ℕ) (s : String) (b : Bytes)
    → count_tallies s ≡ ok b
    → count_tallies (tally n s) ≡ ok (n ∷ b)
unfolding count_tallies tally
count_tallies-tally zero s b h = rw h refl
count_tallies-tally (suc n) s b h = rw (count_tallies-tally n s b h) refl

count_tallies-tallies : (b : Bytes) → count_tallies (tallies b) ≡ ok b
unfolding tallies
count_tallies-tallies [] = unfold count_tallies in refl
count_tallies-tallies (n ∷ b) = count_tallies-tally n (tallies b) b (count_tallies-tallies b)

unfoldable pub open_box : Bytes → Bytes → Result Bytes
open_box nonce [] = err (message "cipher: message authentication failed")
open_box nonce (tag ∷ plain) = ok plain

unfoldable pub box : Aead
unfolding open_box
box = record { nonce_size = 2; seal = λ nonce plain. 7 ∷ plain; open_sealed = open_box }

abbrev pub alice_claims : Claims
alice_claims = record {
  user_id = "";
  organization_id = "";
  email = "alice@acme";
  email_verified = true;
  preferred_username = "alice";
  name = "Alice";
  given_name = "";
  family_name = "";
  locale = "";
  nonce = "I.";
  raw_claims = [];
  subject = "z-alice";
  expires_at = some (pos 3600);
}

unfoldable pub alice_user : SessionUser
unfolding normalize_user
alice_user = record (normalize_user alice_claims) { identity_id = "i-alice" }

unfoldable pub alice_until : Session
alice_until = record { user = alice_user; expires_at = pos 3600 }

-- Alice's session is the only one that has a text.
unfoldable pub codec : Codec
unfolding tallies count_tallies
codec = record {
  encode = tallies;
  decode = count_tallies;
  marshal = λ s. ok (1 ∷ []);
  unmarshal = λ b. ok alice_until;
  sum256 = λ s. 3 ∷ [];
}

unfoldable pub manager : SessionManager
manager = record { aead = box; secure = true }

pub codec-IsSound : IsSound codec box
unfolding box codec count_tallies open_box
codec-IsSound = record {
  opens = λ nonce plain size. refl;
  tagged = λ nonce plain. omega arith;
  decodes = count_tallies-tallies;
}

abbrev pub token : TokenResponse
token = record { access_token = "a"; id_token = "id"; token_type = "Bearer"; expires_in = pos 60 }

abbrev pub oauth : OAuthProvider
oauth = record {
  authorization_url = λ r. ok "https://login";
  exchange_code = λ code verifier. ok token;
  validate_token = λ t. ok alice_claims;
}
