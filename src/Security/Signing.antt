-- ===== src/Security/Signing.antt =====
-- src/security/webhook-signing.service.ts. The HMAC of node's crypto, `JSON.stringify`, the decimal
-- text of a number and `parseInt(text, 10)` are parameters; `now` is `Date.now()`.
pub mod Verified
use webhook_engine.Base.{
  none, ℕ, ◌+◌, ◌-◌, ◌*◌, ◌^◌, ◌==◌, ltb, leb, if◌then◌else◌, Bool, true, false, not, String, units,
  Result, ok, JsNumber, nan, infinity, minus_infinity, finite,
}
use webhook_engine.World.{Envelope, Headers}
use webhook_engine.Security.Bytes.{utf8, utf16_length, strip_prefix, timing_safe_equal}

-- A payload: a string, or a value that is serialised.
pub data Payload : Type 0 where
  text_payload : String → Payload
  value_payload : Envelope → Payload

pub record Crypto : Type 0 where
  -- `createHmac(algorithm, key).update(text, 'utf8').digest('hex')`
  pub hmac : String → String → String → String
  pub stringify : Envelope → String
  pub to_decimal : ℕ → String
  pub parse_int : String → JsNumber
  -- `this.config.securityConfig.signatureAlgorithm`
  pub signature_algorithm : String

pub record WebhookSignature : Type 0 where
  pub timestamp : String
  pub signature : String

-- `text.startsWith('v1=') ? text.slice(3) : text`
unfoldable pub supplied_signature : String → String
unfolding strip_prefix
supplied_signature signature = strip_prefix (units "v1=") signature signature

-- `|now - time| > limit`, both sides times `2 ^ k`
abbrev distance : Bool → ℕ → ℕ → ℕ
distance true now n = now + n
distance false now n = if leb now n then n - now else now - n

-- `isNaN(time) || Math.abs(now - time) > limit`
unfoldable pub is_out_of_time : ℕ → ℕ → JsNumber → Bool
is_out_of_time now limit nan = true
is_out_of_time now limit infinity = true
is_out_of_time now limit minus_infinity = true
is_out_of_time now limit (finite negative n k) =
    ltb (limit * 2 ^ k) (distance negative (now * 2 ^ k) n)

unfoldable pub constant_time_equal : String → String → Result Bool
unfolding timing_safe_equal
constant_time_equal a b =
    if not (utf16_length a == utf16_length b) then ok false else timing_safe_equal (utf8 a) (utf8 b)

module _ (crypto : Crypto) where
  abbrev payload_string : Payload → String
  payload_string (text_payload text') = text'
  payload_string (value_payload value) = crypto.stringify value

  unfoldable pub generate_signature : String → String → Payload → String
  generate_signature secret_key timestamp payload =
      crypto.hmac crypto.signature_algorithm secret_key
        (Prim.Native.String.◌++◌ timestamp (Prim.Native.String.◌++◌ "." (payload_string payload)))

  unfoldable pub generate_webhook_signature : String → Payload → ℕ → WebhookSignature
  unfolding generate_signature
  generate_webhook_signature secret_key payload now = record {
    timestamp = crypto.to_decimal now;
    signature =
        Prim.Native.String.◌++◌ "v1="
          (generate_signature secret_key (crypto.to_decimal now) payload);
  }

  unfoldable pub generate_webhook_headers : String → Payload → ℕ → Headers
  unfolding generate_webhook_signature
  generate_webhook_headers secret_key payload now =
      let made = generate_webhook_signature secret_key payload now in
      record { timestamp = made.timestamp; signature = made.signature; signature_previous = none }

  unfoldable pub verify_webhook_signature : String → String → String → Payload → ℕ → ℕ → Result Bool
  unfolding is_out_of_time supplied_signature generate_signature constant_time_equal
  verify_webhook_signature secret_key timestamp signature payload max_age_seconds now =
      if is_out_of_time now (max_age_seconds * 1000) (crypto.parse_int timestamp)
      then ok false
      else constant_time_equal (supplied_signature signature)
          (generate_signature secret_key timestamp payload)
