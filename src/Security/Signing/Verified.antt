-- ===== src/Security/Signing/Verified.antt =====
-- Signatures of src/security/webhook-signing.service.ts and their verification.
use webhook_engine.Base.{
  ◌⊎◌, ◌^◌, JsNumber, nan, infinity, minus_infinity, finite, ℕ, ◌+◌, ◌*◌, ◌≤◌, length, ◌≡◌, refl,
  Bool-cases, inl, inr, true, false, String, ok, arith, whole, eq_self,
}
use webhook_engine.Security.Bytes.{
  utf8, utf16_length, strip_prefix-append, timing_safe_equal, text_eq_self, text_eq→≡, utf8-inj,
}
use webhook_engine.Security.Signing.{
  Payload, Crypto, supplied_signature, is_out_of_time, constant_time_equal, generate_signature,
  generate_webhook_headers, generate_webhook_signature, verify_webhook_signature,
}

constant_time_equal_self : (a : String) → constant_time_equal a a ≡ ok true
unfolding constant_time_equal timing_safe_equal
constant_time_equal_self a =
    rw (eq_self (utf16_length a), eq_self (length (utf8 a)), text_eq_self (utf8 a)) refl

supplied_signature-versioned :
    (s : String) → supplied_signature (Prim.Native.String.◌++◌ "v1=" s) ≡ s
unfolding supplied_signature
supplied_signature-versioned s = strip_prefix-append s (Prim.Native.String.◌++◌ "v1=" s)

in_time :
    (now later limit : ℕ)
    → now ≤ later
    → later ≤ now + limit
    → is_out_of_time later limit (whole now) ≡ false
unfolding is_out_of_time
in_time now later limit h h' = ground arith

-- A signature that was made with a key for a payload is verified with the same key and the same
-- payload from then on until the maximal age has passed, where `parseInt` reads what the decimal text
-- of a number says.
pub verify-generate :
    (crypto : Crypto)
    → ((n : ℕ) → crypto.parse_int (crypto.to_decimal n) ≡ whole n)
    → (secret_key : String) (payload : Payload) (now later max_age_seconds : ℕ) → now ≤ later
    → later ≤ now + max_age_seconds * 1000
    → let headers = generate_webhook_headers crypto secret_key payload now in
      verify_webhook_signature crypto secret_key headers.timestamp headers.signature payload
        max_age_seconds later
      ≡ ok true
unfolding verify_webhook_signature generate_webhook_headers generate_webhook_signature
verify-generate crypto reads secret_key payload now later age h h' =
    rw
      (
        reads now,
        in_time now later (age * 1000) h h',
        supplied_signature-versioned
            (generate_signature crypto secret_key (crypto.to_decimal now) payload),
      )
      (constant_time_equal_self
        (generate_signature crypto secret_key (crypto.to_decimal now) payload))

constant_time_equal-true : (a b : String) → constant_time_equal a b ≡ ok true → a ≡ b
unfolding constant_time_equal timing_safe_equal
constant_time_equal-true a b h = utf8-inj a b (text_eq→≡ (utf8 a) (utf8 b) (ground arith))

-- The number is finite and lies at most `limit` before or after `now`; `n / 2 ^ k` is its absolute value,
-- and all sides are times `2 ^ k`.
abbrev pub IsRecent : ℕ → ℕ → JsNumber → Type 0
IsRecent now limit time =
    ((n : ℕ) × (k : ℕ) × (time ≡ finite false n k)
      × (now * 2 ^ k ≤ n + limit * 2 ^ k)
      × (n ≤ now * 2 ^ k + limit * 2 ^ k))
    ⊎ ((n : ℕ) × (k : ℕ) × (time ≡ finite true n k) × (now * 2 ^ k + n ≤ limit * 2 ^ k))

in_time-IsRecent :
    (now limit : ℕ) (time : JsNumber)
    → is_out_of_time now limit time ≡ false
    → IsRecent now limit time
unfolding is_out_of_time
in_time-IsRecent now limit nan h = absurd cc
in_time-IsRecent now limit infinity h = absurd cc
in_time-IsRecent now limit minus_infinity h = absurd cc
in_time-IsRecent now limit (finite true n k) h = inr (n, k, refl, ground arith)
in_time-IsRecent now limit (finite false n k) h = inl (n, k, refl, ground arith, ground arith)

-- What is verified was signed: if the verification answers yes, `parseInt` reads
-- the timestamp as a finite number at most the maximal age before or after the present, and the signature that was supplied is, without a leading `v1=`, the one
-- that is made with the key for that timestamp and payload.
pub verify-IsSigned :
    (crypto : Crypto) (secret_key timestamp signature : String) (payload : Payload)
    (max_age_seconds now : ℕ)
    → verify_webhook_signature crypto secret_key timestamp signature payload max_age_seconds now
      ≡ ok true
    → IsRecent now (max_age_seconds * 1000) (crypto.parse_int timestamp)
      × (supplied_signature signature ≡ generate_signature crypto secret_key timestamp payload)
unfolding verify_webhook_signature
verify-IsSigned crypto secret_key timestamp signature payload age now h =
    elim (Bool-cases (is_out_of_time now (age * 1000) (crypto.parse_int timestamp))) [
      | inl late ↦ let h' = rw late at h in absurd cc
      | inr fresh ↦
          let h' : constant_time_equal (supplied_signature signature)
                (generate_signature crypto secret_key timestamp payload)
              ≡ ok true =
            rw fresh at h in
          (
            in_time-IsRecent now (age * 1000) (crypto.parse_int timestamp) fresh,
            constant_time_equal-true (supplied_signature signature)
                (generate_signature crypto secret_key timestamp payload) h',
          )
    ]
