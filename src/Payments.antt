-- ===== src/Payments.antt =====
-- internal/platform/payments: the webhook's headers, and the provider of dodo/provider.go. The HTTP
-- client with the JSON of the exchange, base64 and HMAC-SHA256 are parameters.
pub mod Signatures
use modular_monolith.Prelude.{
  ℕ, suc, String, ◌==◌, Bool, true, false, not, ◌&&◌, ◌||◌, List, [], ◌∷◌, Option, none, some,
  if◌then◌else◌, ltb, leb, any, joined, trim_space, trim_slashes, has_prefix, drop_chars, split_at,
  cut_at,
}
use modular_monolith.Prelude.Int.{ℤ, pos, negsuc, ◌-ℤ◌}
use modular_monolith.Prelude.Int64.{int64}
use modular_monolith.Prelude.Numerals.{parse_int}
use modular_monolith.Failure.{Error, Result, ok, err, message, ◌>>=◌, ◌>>◌, require, on_error}
use modular_monolith.Session.{World, M}

pub record WebhookHeaders : Type 0 where
  pub id : String
  pub signature : String
  pub timestamp : String

pub record Provider : Type 0 where
  pub api_key : String
  pub webhook_secret : String
  pub base_url : String

unfoldable pub new_provider : String → String → String → Provider
new_provider api_key webhook_secret base_url = record {
  api_key = trim_space api_key;
  webhook_secret = trim_space webhook_secret;
  base_url = trim_space base_url;
}

-- The POST request of a checkout: one unit of the plan, for the organization.
pub record CheckoutCall : Type 0 where
  pub url : String
  pub authorization : String
  pub product_id : String
  pub quantity : ℕ
  pub organization_id : String

-- What the client answers: the status, and `checkout_url` of the body if it can be decoded.
pub record CheckoutReply : Type 0 where
  pub status : ℕ
  pub checkout_url : Result String

abbrev checkout_call : Provider → String → String → CheckoutCall
checkout_call p organization_id plan = record {
  url = joined (trim_slashes p.base_url) "/checkouts";
  authorization = joined "Bearer " p.api_key;
  product_id = plan;
  quantity = 1;
  organization_id = organization_id;
}

unfoldable pub request_checkout :
    Provider → (CheckoutCall → Result CheckoutReply) → String → String → Result String
request_checkout p client organization_id plan = do
  require (not (p.api_key == "")) (message "dodo api key is required")
  reply ← client (checkout_call p organization_id plan)
  require (not (ltb reply.status 200 || leb 300 reply.status)) (message "dodo checkout failed")
  url ← reply.checkout_url
  require (not (trim_space url == "")) (message "dodo checkout response missing checkout_url")
  ok url

-- `CreateCheckoutSession`: the database has no part in it.
unfoldable pub create_checkout_url :
    Provider → (CheckoutCall → Result CheckoutReply) → String → String → M String
unfolding request_checkout
create_checkout_url p client organization_id plan w =
    (request_checkout p client organization_id plan, w)

abbrev Bytes : Type 0
Bytes = List ℕ

-- `base64.StdEncoding` and `hmac.New(sha256.New, key)` over a text
pub record Signing : Type 0 where
  pub decode : String → Result Bytes
  pub encode : Bytes → String
  pub mac : Bytes → String → Bytes

-- |d|
abbrev pub abs : ℤ → ℕ
abs (pos n) = n
abs (negsuc n) = suc n

-- `webhookTimestampTolerance`, in seconds
abbrev pub tolerance : ℕ
tolerance = 300

-- `math.Abs(float64(now - ts)) > tolerance`: a float64 holds every distance that is near enough.
unfoldable pub is_stale : ℕ → ℤ → Bool
unfolding int64 ◌-ℤ◌
is_stale now ts = ltb tolerance (abs (int64 (pos now -ℤ ts)))

abbrev pub signing_secret : String → String
signing_secret secret = if has_prefix secret "whsec_" then drop_chars 6 secret else secret

-- `fmt.Sprintf("%s.%s.%s", ..)`
abbrev pub signed_content : WebhookHeaders → String → String
signed_content h payload = joined h.id (joined "." (joined h.timestamp (joined "." payload)))

abbrev is_v1 : String → Option (String × String) → Bool
is_v1 expected none = false
is_v1 expected (some (version, signature)) = version == "v1" && signature == expected

unfoldable pub matches : String → String → Bool
unfolding cut_at
matches expected sig = is_v1 expected (cut_at b',' sig)

abbrev pub parsed : Option ℤ → Result ℤ
parsed none = err (message "invalid webhook timestamp")
parsed (some ts) = ok ts

-- `VerifyWebhookSignature`; `now` is in seconds.
unfoldable pub verify_webhook_signature :
    Signing → Provider → ℕ → String → WebhookHeaders → Result (Unit {0})
verify_webhook_signature signing p now payload h = do
  require (not (p.webhook_secret == "")) (message "webhook secret is not configured")
  require (not (h.id == "" || h.signature == "" || h.timestamp == ""))
      (message "missing required webhook headers")
  ts ← parsed (parse_int h.timestamp)
  require (not (is_stale now ts)) (message "webhook timestamp too old or too new")
  key ←
      on_error (λ e. message "invalid webhook secret encoding")
        (signing.decode (signing_secret p.webhook_secret))
  let expected = signing.encode (signing.mac key (signed_content h payload))
  require (any (matches expected) (split_at b' ' h.signature))
      (message "webhook signature verification failed")
  ok tt
