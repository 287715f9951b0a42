-- ===== src/Dispatcher/Executor.antt =====
-- src/dispatcher/application/services/delivery-executor.service.ts, with the ports
-- src/dispatcher/application/ports/delivery-channel.port.ts and
-- src/security/application/ports/webhook-signer.port.ts as parameters.
pub mod Outcome
use webhook_engine.Base.{
  ℕ, ◌+◌, ◌==◌, leb, ltb, if◌then◌else◌, Bool, true, false, not, ◌&&◌, ◌||◌, Option, none, some,
  List, [], ◌∷◌, ◌++◌, String, str_eq, Text, units, decimal, is_empty, take, Body, string_body,
  json_body, RequestError, Error, request_error, p2002, p2025, tenant_not_found, http_exception,
  other_error, Result, ok, err, M, pure, try_catch, ◌>>=◌, ◌>>◌,
}
use webhook_engine.Prisma.{Prisma}
use webhook_engine.Schema.{Endpoint, WebhookEvent, Delivery}
use webhook_engine.World.{World, Envelope, Headers, Request, on_db, clock, increment}
use webhook_engine.Dispatcher.Repository.{
  DispatchableDelivery, DeliveryFailureInput, claim_for_processing, mark_success, mark_dead_letter,
  mark_failed_and_schedule,
}
use webhook_engine.Dispatcher.Retry.{
  RetryConfig, Random, HeaderReader, is_retryable, next_attempt_delay,
}
use webhook_engine.Dispatcher.Redaction.{redact}

pub record DeliveryResult : Type 0 where
  pub status : ℕ
  pub data' : Text

-- The ports and settings that the executor is constructed with, and what the runtime gives it.
pub record Services (E : Type 0) : Type 0 where
  -- the milliseconds that a request takes, and its outcome
  pub send : Request → E → (Result DeliveryResult × ℕ) × E
  pub generate_webhook_headers : String → Envelope → ℕ → Headers
  pub generate_signature : String → String → Envelope → String
  pub capture_response_bodies : Bool
  pub retry_config : RetryConfig
  -- the message of an error of the database client
  pub client_message : Error → Text
  pub reader : HeaderReader
  pub random : Random

abbrev pub with_elapsed :
    {E : Type 0}
    → World E
    → Request
    → (Result DeliveryResult × ℕ) × E
    → Result DeliveryResult × World E
with_elapsed w request ((r, elapsed), e) =
    (r, record w { now = w.now + elapsed; sent = request ∷ w.sent; external = e })

-- The catch clause reads a thrown value as an error of an HTTP request. An `HttpException` of the
-- framework has a `status` and a `message`, and its `response` has no `status` and no `data`.
abbrev pub as_request_error : (Error → Text) → Error → RequestError
as_request_error message (request_error e) = e
as_request_error message (http_exception status text) = record {
  response_status = none;
  response_data = none;
  retry_after = none;
  error_status = some status;
  error_message = some (units text);
}
as_request_error message (other_error text) = record {
  response_status = none;
  response_data = none;
  retry_after = none;
  error_status = none;
  error_message = some text;
}
as_request_error message tenant_not_found = record {
  response_status = none;
  response_data = none;
  retry_after = none;
  error_status = none;
  error_message = none;
}
as_request_error message e = record {
  response_status = none;
  response_data = none;
  retry_after = none;
  error_status = none;
  error_message = some (message e);
}

-- `a || b` on numbers: zero counts as absent
abbrev pub or_number : Option ℕ → ℕ → ℕ
or_number none other = other
or_number (some n) other = if n == 0 then other else n

-- `error.response?.status || error.status || 500`
unfoldable pub failure_status : RequestError → ℕ
failure_status e = or_number e.response_status (or_number e.error_status 500)

-- `a || b` on texts: the empty text counts as absent
abbrev pub or_text : Text → Text → Text
or_text t other = if is_empty t then other else t

abbrev pub message_text : Option Text → Text
message_text none = units "Unknown error"
message_text (some message) = or_text message (units "Unknown error")

unfoldable pub response_text : RequestError → Text
response_text e = elim e.response_data [
  | none ↦ message_text e.error_message
  | some (string_body t) ↦ or_text t (message_text e.error_message)
  | some (json_body t) ↦ t
]

-- `HTTP ${status}`
abbrev pub http_text : ℕ → Text
http_text status = units "HTTP " ++ decimal status

abbrev pub envelope_of : DispatchableDelivery → Envelope
envelope_of d = record {
  id = d.event.id;
  type = d.event.type;
  version = "1";
  created_at = d.event.created_at;
  data' = d.event.payload;
}

module _ {E : Type 0} (svc : Services E) where
  -- The signature by the previous secret, while that has not expired.
  unfoldable pub previous_signature : ℕ → Endpoint → Envelope → Headers → Option String
  previous_signature now endpoint envelope headers = elim endpoint.previous_secret_key [
    | none ↦ none
    | some key ↦ elim endpoint.previous_secret_expires_at [
      | none ↦ none
      | some expires_at ↦
          if not (str_eq key "") && ltb now expires_at
          then some (
              Prim.Native.String.◌++◌ "v1=" (svc.generate_signature key headers.timestamp envelope))
          else none
    ]
  ]

  unfoldable pub request_of : ℕ → DispatchableDelivery → Request
  unfolding previous_signature
  request_of now d =
      let envelope = envelope_of d in
      let headers = svc.generate_webhook_headers d.endpoint.secret_key envelope now in
      record {
        url = d.endpoint.url;
        payload = envelope;
        headers = record headers {
          signature_previous = previous_signature now d.endpoint envelope headers;
        };
      }

  unfoldable pub success_snippet : DeliveryResult → Text
  success_snippet response =
      if svc.capture_response_bodies
      then or_text (take 255 (redact response.data')) (units "OK")
      else http_text response.status

  unfoldable pub failure_snippet : RequestError → ℕ → Text
  unfolding response_text
  failure_snippet e status =
      if svc.capture_response_bodies then take 255 (redact (response_text e)) else http_text status

  unfoldable pub send_request : Request → M (World E) DeliveryResult
  send_request request w = with_elapsed w request (svc.send request w.external)

  -- `attempts >= maxAttempts || !isRetryable(status)`
  unfoldable pub gives_up : ℕ → ℕ → Bool
  unfolding is_retryable
  gives_up attempts status = leb svc.retry_config.max_attempts attempts || not (is_retryable status)

  module _ (db : Prisma) where
    -- what follows the request in `try`
    unfoldable pub complete : DispatchableDelivery → DeliveryResult → M (World E) (Unit {0})
    unfolding success_snippet
    complete d response = do
      now ← clock
      on_db (mark_success db now d.delivery.id response.status (success_snippet response))
      increment "deliveries_success_total"

    -- the body of `try`
    unfoldable pub deliver : DispatchableDelivery → M (World E) (Unit {0})
    unfolding request_of send_request complete
    deliver d = do now ← clock; response ← send_request (request_of now d); complete d response

    -- the argument of `markFailedAndSchedule`
    abbrev pub failure_input : ℕ → DispatchableDelivery → RequestError → ℕ → DeliveryFailureInput
    failure_input now d e status = record {
      id = d.delivery.id;
      status_code = status;
      response_snippet = failure_snippet e status;
      next_attempt_at =
          now
          + next_attempt_delay svc.reader now status e.retry_after d.delivery.attempts
              svc.retry_config svc.random;
      next_attempt_number = d.delivery.attempts + 1;
    }

    -- `markDeadLetter`, or `markFailedAndSchedule` with the next attempt
    unfoldable pub give_up_or_retry :
        DispatchableDelivery → RequestError → ℕ → M (World E) (Unit {0})
    unfolding gives_up failure_snippet
    give_up_or_retry d e status = do
      now ← clock
      if gives_up d.delivery.attempts status
          then (do
            on_db (mark_dead_letter db now d.delivery.id status (failure_snippet e status))
            increment "deliveries_dlq_total")
          else (do
            on_db (mark_failed_and_schedule db now (failure_input now d e status))
            increment "delivery_retries_scheduled_total")

    -- the body of `catch`
    unfoldable pub handle_failure : DispatchableDelivery → Error → M (World E) (Unit {0})
    unfolding give_up_or_retry failure_status
    handle_failure d error =
        let e = as_request_error svc.client_message error in give_up_or_retry d e (failure_status e)

    unfoldable pub attempt : Option DispatchableDelivery → M (World E) (Unit {0})
    unfolding deliver handle_failure
    attempt none = pure tt
    attempt (some d) = try_catch (deliver d) (handle_failure d)

    unfoldable pub execute : DispatchableDelivery → ℕ → M (World E) (Unit {0})
    unfolding attempt
    execute delivery expected_attempt = do
      now ← clock
      claimed ← on_db (claim_for_processing db now delivery.delivery.id expected_attempt)
      attempt claimed
