-- ===== src/Dispatcher/Signed.antt =====
-- The requests of src/dispatcher/application/services/delivery-executor.service.ts under the signer of
-- src/security/webhook-signing.service.ts, as their receiver checks them.
use webhook_engine.Base.{
  ℕ, ◌+◌, ◌*◌, ◌≤◌, ◌<◌, ◌≡◌, ◌≢◌, Bool, true, some, String, eq_iff, Result, ok, arith, whole,
}
use webhook_engine.Schema.{Endpoint}
use webhook_engine.World.{Envelope, Headers, Request}
use webhook_engine.Security.Signing.{
  value_payload, Crypto, generate_signature, generate_webhook_headers, verify_webhook_signature,
}
use webhook_engine.Security.Signing.Verified.{verify-generate}
use webhook_engine.Dispatcher.Repository.{DispatchableDelivery}
use webhook_engine.Dispatcher.Executor.{Services, envelope_of, previous_signature, request_of}

-- The services of the executor with this signer.
abbrev pub with_signer : {E : Type 0} → Crypto → Services E → Services E
with_signer crypto svc = record svc {
  generate_webhook_headers = λ key e now. generate_webhook_headers crypto key (value_payload e) now;
  generate_signature = λ key timestamp e. generate_signature crypto key timestamp (value_payload e);
}

-- The receiver's check with the default maximal age.
abbrev pub receiver_accepts : Crypto → String → String → Request → ℕ → Result Bool
receiver_accepts crypto key signature request at =
    verify_webhook_signature crypto key request.headers.timestamp signature
      (value_payload request.payload) 300 at

-- The request that the executor makes at a time is verified by a receiver that knows the secret of the
-- endpoint, from then on for five minutes, where `parseInt` reads what the decimal text of a number
-- says.
pub request_of-Verifies :
    {E : Type 0} (crypto : Crypto)
    → ((n : ℕ) → crypto.parse_int (crypto.to_decimal n) ≡ whole n)
    → (svc : Services E) (d : DispatchableDelivery) (now later : ℕ) → now ≤ later
    → later ≤ now + 300 * 1000
    → let request = request_of (with_signer crypto svc) now d in
      receiver_accepts crypto d.endpoint.secret_key request.headers.signature request later
      ≡ ok true
unfolding request_of
request_of-Verifies crypto reads svc d now later h h' =
    verify-generate crypto reads d.endpoint.secret_key (value_payload (envelope_of d)) now later 300
      h h'

previous_signature-some :
    {E : Type 0} (svc : Services E) (now expires_at : ℕ) (previous : String) (e : Endpoint)
    (envelope : Envelope) (headers : Headers)
    → e.previous_secret_key ≡ some previous
    → e.previous_secret_expires_at ≡ some expires_at
    → previous ≢ ""
    → now < expires_at
    → previous_signature svc now e envelope headers
      ≡ some (
          Prim.Native.String.◌++◌ "v1="
            (svc.generate_signature previous headers.timestamp envelope))
unfolding previous_signature
previous_signature-some svc now expires_at previous e envelope headers key expires full fresh =
    rw (key, expires) (ground (arith, eq_iff previous ""))

-- While the previous secret of an endpoint has not expired, a request carries a signature that a
-- receiver which only knows that secret verifies, from then on for five minutes.
request_of-VerifiesPrevious :
    {E : Type 0} (crypto : Crypto)
    → ((n : ℕ) → crypto.parse_int (crypto.to_decimal n) ≡ whole n)
    → (svc : Services E) (d : DispatchableDelivery) (now later expires_at : ℕ) (previous : String)
    → d.endpoint.previous_secret_key ≡ some previous
    → d.endpoint.previous_secret_expires_at ≡ some expires_at
    → previous ≢ ""
    → now < expires_at
    → now ≤ later
    → later ≤ now + 300 * 1000
    → let request = request_of (with_signer crypto svc) now d in
      (signature : String) × (request.headers.signature_previous ≡ some signature)
      × (receiver_accepts crypto previous signature request later ≡ ok true)
unfolding request_of generate_webhook_headers generate_signature
request_of-VerifiesPrevious crypto reads svc d now later expires_at previous key expires full fresh
      h h' =
    let headers =
      (with_signer crypto svc).generate_webhook_headers d.endpoint.secret_key (envelope_of d) now in
    (
      _,
      previous_signature-some (with_signer crypto svc) now expires_at previous d.endpoint
          (envelope_of d) headers key expires full fresh,
      verify-generate crypto reads previous (value_payload (envelope_of d)) now later 300 h h',
    )
