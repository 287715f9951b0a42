-- ===== src/Tests/SecurityExamples.antt =====
-- The theorems on the settings, webhook URLs, signatures and guards, applied to concrete inputs.
use webhook_engine.Base.{
  read_digits-decimal, string_body, ℕ, ◌≡◌, ◌⊎◌, refl, true, false, none, some, [], find?, String,
  Text, units, ok, err, http_exception, read_digits, read_digits-decimal, arith,
}
use webhook_engine.Prisma.{reference, reference-IsLawful}
use webhook_engine.Config.{WebhookConfig, config_service}
use webhook_engine.Config.Checks.{IsValid, config_service-IsValid}
use webhook_engine.Schema.{Delivery, dlq}
use webhook_engine.Dispatcher.Repository.{has_id}
use webhook_engine.Dispatcher.Executor.{request_of, attempt}
use webhook_engine.Dispatcher.HttpChannel.{HttpChannel, with_http}
use webhook_engine.Dispatcher.HttpChannel.Refused.{attempt-refused}
use webhook_engine.Dispatcher.Signed.{with_signer, receiver_accepts, request_of-Verifies}
use webhook_engine.Security.Bytes.{utf8_char}
use webhook_engine.Security.SafeUrl.{is_private_address, assert_safe_webhook_url}
use webhook_engine.Security.SafeUrl.Blocks.{dotted, is_private_address-blocks}
use webhook_engine.Security.SafeUrl.Checked.{IsSafe, assert_safe_webhook_url-IsSafe}
use webhook_engine.Security.Signing.{
  text_payload, supplied_signature, generate_signature, verify_webhook_signature,
}
use webhook_engine.Security.Signing.Verified.{IsRecent, verify-IsSigned}
use webhook_engine.Security.Guards.{tenant_guard}
use webhook_engine.Security.Guards.Sound.{IsAuthenticated, tenant_guard-decides}
use webhook_engine.Tests.Data.{deployment, services, to_send, order, world}
use webhook_engine.Tests.SecurityData.{hook_url, plain_url, network_of, crypto, crypto-reads}

abbrev defaults : WebhookConfig
defaults = record {
  retry = record {
    max_attempts = 5;
    base_delay = 1000;
    max_delay = 300000;
    multiplier_num = 2;
    multiplier_den = 1;
  };
  timeout = 10000;
  outbox_poll_interval = 1000;
  stale_delivery_age = 900000;
  security = record { max_timestamp_age = 300; signature_algorithm = "sha256" };
}

default_settings :
    config_service (λ s. read_digits (units s)) (λ _. none) ≡ (ok defaults, λ _. none)
unfolding config_service
default_settings = refl

config_service-IsValid_example : IsValid defaults
config_service-IsValid_example =
    config_service-IsValid (λ s. read_digits (units s)) (λ _. none) defaults (λ _. none)
      default_settings

is_private_address-blocks_example : is_private_address read_digits (dotted 172 31 0 1) ≡ true
is_private_address-blocks_example =
    is_private_address-blocks read_digits read_digits-decimal 172 31 0 1 (omega arith) (omega arith)
      (omega arith) (omega arith)

accepted :
    assert_safe_webhook_url (network_of hook_url) false "https://example.org/hook"
    ≡ ok "https://example.org/hook"
unfolding assert_safe_webhook_url read_digits
accepted = refl

assert_safe_webhook_url-IsSafe_example :
    IsSafe (network_of hook_url) "https://example.org/hook" "https://example.org/hook"
assert_safe_webhook_url-IsSafe_example =
    assert_safe_webhook_url-IsSafe (network_of hook_url) read_digits-decimal
      "https://example.org/hook" "https://example.org/hook" accepted

-- Production, where the URL of the endpoint has become one without TLS.
abbrev channel : HttpChannel (Unit {0})
channel = record {
  network = λ _. network_of plain_url;
  resolving = λ _ _. 7;
  post = λ _ e. ((ok (record { status = 200; data' = string_body [] }), 20), e);
  allow_local_urls = false;
  timeout = 10000;
}

refused :
    assert_safe_webhook_url (channel.network tt) false to_send.endpoint.url
    ≡ err (http_exception 400 "Production endpoint URLs must use HTTPS")
unfolding assert_safe_webhook_url
refused = refl

attempt-refused_example :
    let r = attempt (with_http channel services) reference (some to_send) world in
    (r.0 ≡ ok tt)
    × ((row : Delivery) × (find? (has_id to_send.delivery.id) r.1.db.deliveries ≡ some row)
        × (row.status ≡ dlq))
    × (r.1.db.outbox ≡ world.db.outbox)
    × (r.1.external ≡ world.external)
attempt-refused_example =
    attempt-refused channel reference reference-IsLawful services to_send order world
      "Production endpoint URLs must use HTTPS" refused refl refl

signed :
    verify_webhook_signature crypto "key" "11" "v1=key11.hello" (text_payload "hello") 300 100
    ≡ ok true
unfolding verify_webhook_signature utf8_char
signed = refl

verify-IsSigned_example :
    IsRecent 100 300000 (crypto.parse_int "11")
    × (supplied_signature "v1=key11.hello"
        ≡ generate_signature crypto "key" "11" (text_payload "hello"))
verify-IsSigned_example =
    verify-IsSigned crypto "key" "11" "v1=key11.hello" (text_payload "hello") 300 100 signed

abbrev bearer : Text
bearer = units "Bearer whk_00000000000000000000000000000000000000000000000000000000000000aF"

tenant_guard-decides_example :
    ((id : ℕ) × (tenant_guard reference (λ _. "hash") (some bearer) deployment
        ≡ (ok id, deployment))
      × IsAuthenticated (λ _. "hash") deployment (some bearer) id)
    ⊎ ((message : String) × (tenant_guard reference (λ _. "hash") (some bearer) deployment
          ≡ (err (http_exception 401 message), deployment)))
tenant_guard-decides_example =
    tenant_guard-decides reference reference-IsLawful (λ _. "hash") (some bearer) deployment

request_of-Verifies_example :
    let request = request_of (with_signer crypto services) 1000 to_send in
    receiver_accepts crypto "secret" request.headers.signature request 301000 ≡ ok true
request_of-Verifies_example =
    request_of-Verifies crypto crypto-reads services to_send 1000 301000 (omega arith) (omega arith)
