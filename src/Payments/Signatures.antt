-- ===== src/Payments/Signatures.antt =====
-- Which webhook deliveries pass the check of dodo/provider.go.
use mathlib.Core.List.{Memᴰ}
use modular_monolith.Prelude.{
  ℕ, ◌<◌, ◌≤◌, ◌^◌, String, ◌==◌, ◌≡◌, ◌↔◌, refl, subst, ap, ap₂, ◌∙◌, true, false, not, ◌||◌, List,
  Option, inl, inr, none, some, arith, eq_iff, any, any_of_mem, has_prefix, drop_chars,
  if◌then◌else◌, mem_of_any, joined, Option-cases, split_at, cut_at, cut_at-parts, cut_at_v1,
  joined_comma, eq_refl,
}
use modular_monolith.Prelude.Int.{ℤ, pos, negsuc, pos_part, neg_part, ◌≤ℤ◌, ◌+ℤ◌, ◌-ℤ◌}
use modular_monolith.Prelude.Int64.{int64}
use modular_monolith.Prelude.Numerals.{parse_int}
use modular_monolith.Failure.{ok, message, on_error, >>=-ok, require-ok, on_error-ok}
use modular_monolith.Payments.{
  WebhookHeaders, Provider, Signing, tolerance, is_stale, signing_secret, signed_content, parsed,
  matches, verify_webhook_signature,
}

-- A timestamp is stale exactly if it is more than the tolerance away from now, on either side, also
-- where the difference of the int64 wraps around.
pub is_stale_iff :
    (now : ℕ) (ts : ℤ)
    → now < 2 ^ 62
    → pos_part ts < 2 ^ 63
    → neg_part ts ≤ 2 ^ 63
    → (is_stale now ts ≡ false)
      ↔ ((pos now ≤ℤ ts +ℤ pos tolerance) × (ts ≤ℤ pos now +ℤ pos tolerance))
unfolding is_stale int64 ◌-ℤ◌ ◌+ℤ◌
is_stale_iff now (pos n) h p q = (λ f. ground (arith, f), λ (a, b). ground (arith, a, b))
is_stale_iff now (negsuc n) h p q = (λ f. ground (arith, f), λ (a, b). ground (arith, a, b))

-- An entry of the signature header fits exactly if it is "v1," followed by the expected text.
matches_iff :
    (expected sig : String) → (matches expected sig ≡ true) ↔ (sig ≡ joined "v1," expected)
unfolding matches
matches_iff expected sig = (
  λ f. elim (Option-cases (cut_at b',' sig)) [
    | inl uncut ↦ absurd (ground (arith, f, uncut))
    | inr (p, cut) ↦
        let version : p.0 ≡ "v1" = ground (arith, f, cut, eq_iff p.0 "v1") in
        let signature : p.1 ≡ expected =
          ground (arith, f, cut, eq_iff p.0 "v1", eq_iff p.1 expected) in
        cut_at-parts "," sig p.0 p.1 cut
        ∙ ap (λ (q : String × String). joined q.0 (String.◌∷◌ "," q.1))
            (ap₂ (λ (a b : String). (a, b)) version signature)
        ∙ joined_comma expected
  ],
  λ e. rw e (ground (arith, cut_at_v1 expected, eq_refl "v1", eq_refl expected)),
)

-- A delivery that passes: all headers are there, the timestamp is a number at most 300
-- seconds away from now, and one entry of the signature header is "v1," with the encoded MAC of
-- the identifier, the timestamp and the body with points between, under the key that the secret
-- encodes after "whsec_".
pub record IsGenuine (signing : Signing) (p : Provider) (now : ℕ) (payload : String)
    (h : WebhookHeaders) : Type 0 where
  pub has_secret : (p.webhook_secret == "") ≡ false
  pub has_headers : (h.id == "" || h.signature == "" || h.timestamp == "") ≡ false
  pub ts : ℤ
  pub timestamp : parse_int h.timestamp ≡ some ts
  pub fresh : (pos now ≤ℤ ts +ℤ pos 300) × (ts ≤ℤ pos now +ℤ pos 300)
  pub key : List ℕ
  pub secret :
      signing.decode (
        if has_prefix p.webhook_secret "whsec_"
        then drop_chars 6 p.webhook_secret
        else p.webhook_secret)
      ≡ ok key
  pub signed :
      Memᴰ
        (joined "v1," (
          signing.encode
            (signing.mac key (joined h.id (joined "." (joined h.timestamp (joined "." payload)))))))
        (split_at b' ' h.signature)

parsed-ok : (o : Option ℤ) (ts : ℤ) → parsed o ≡ ok ts → o ≡ some ts
parsed-ok none ts h = absurd (ground (arith, h))
parsed-ok (some t) ts h = ground (arith, h)

parsed_range :
    (s : String) (ts : ℤ) → parse_int s ≡ some ts → (pos_part ts < 2 ^ 63) × (neg_part ts ≤ 2 ^ 63)
unfolding parse_int
parsed_range s ts e = ground (arith, e)

module _ (signing : Signing) (p : Provider) (now : ℕ) (payload : String) (h : WebhookHeaders)
    (early : now < 2 ^ 62) where
  abbrev expected : List ℕ → String
  expected key = signing.encode (signing.mac key (signed_content h payload))

  verify-IsGenuine :
      verify_webhook_signature signing p now payload h ≡ ok tt → IsGenuine signing p now payload h
  unfolding verify_webhook_signature
  verify-IsGenuine e =
      let (has_secret, e1) = require-ok (not (p.webhook_secret == "")) _ _ e in
      let (has_headers, e2) =
        require-ok (not (h.id == "" || h.signature == "" || h.timestamp == "")) _ _ e1 in
      let (ts, number, e3) = >>=-ok (parsed (parse_int h.timestamp)) _ e2 in
      let (near, e4) = require-ok (not (is_stale now ts)) _ _ e3 in
      let (key, decoded, e5) =
        >>=-ok
          (on_error (λ e. message "invalid webhook secret encoding")
            (signing.decode (signing_secret p.webhook_secret)))
          _ e4 in
      let (found, e6) =
        require-ok (any (matches (expected key)) (split_at b' ' h.signature)) _ _ e5 in
      let (sig, listed, fits) =
        mem_of_any (matches (expected key)) (split_at b' ' h.signature) found in
      let number' : parse_int h.timestamp ≡ some ts = parsed-ok (parse_int h.timestamp) ts number in
      let (low, high) = parsed_range h.timestamp ts number' in
      record {
        has_secret = ground (arith, has_secret);
        has_headers = ground (arith, has_headers);
        ts = ts;
        timestamp = number';
        fresh = (is_stale_iff now ts early low high).0 (ground (arith, near));
        key = key;
        secret =
            on_error-ok (λ e. message "invalid webhook secret encoding")
              (signing.decode (signing_secret p.webhook_secret)) decoded;
        signed =
            subst (λ (x : String). Memᴰ x (split_at b' ' h.signature))
              ((matches_iff (expected key) sig).0 fits) listed;
      }

  IsGenuine-verify :
      IsGenuine signing p now payload h → verify_webhook_signature signing p now payload h ≡ ok tt
  unfolding verify_webhook_signature
  IsGenuine-verify g =
      let (low, high) = parsed_range h.timestamp g.ts g.timestamp in
      let near : is_stale now g.ts ≡ false = (is_stale_iff now g.ts early low high).1 g.fresh in
      let fits : any (matches (expected g.key)) (split_at b' ' h.signature) ≡ true =
        any_of_mem (matches (expected g.key)) (split_at b' ' h.signature) g.signed
          ((matches_iff (expected g.key) _).1 refl) in
      rw g.has_secret (rw g.has_headers (rw g.timestamp (rw near (rw g.secret (rw fits refl)))))

  -- The provider's check accepts a delivery exactly if it is genuine: secret and headers are there,
  -- the timestamp is a number at most five minutes before or after now, and some entry of the
  -- signature header is "v1," and the encoded MAC of the signed content. The clock, in seconds, is
  -- below 2^62.
  pub verify_webhook_signature_iff :
      (verify_webhook_signature signing p now payload h ≡ ok tt) ↔ IsGenuine signing p now payload h
  verify_webhook_signature_iff = (verify-IsGenuine, IsGenuine-verify)
