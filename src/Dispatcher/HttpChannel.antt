-- ===== src/Dispatcher/HttpChannel.antt =====
-- src/dispatcher/infrastructure/http/http-delivery-channel.adapter.ts: the delivery channel over
-- HTTP. `axios.post` and what the DNS answers at a moment are parameters; both belong to the state
-- outside.
pub mod Refused
use webhook_engine.Base.{ℕ, ◌+◌, Bool, String, Text, Body, string_body, json_body, Result, ok, err}
use webhook_engine.World.{Envelope, Headers, Request}
use webhook_engine.Security.SafeUrl.{Network, assert_safe_webhook_url}
use webhook_engine.Dispatcher.Executor.{DeliveryResult, Services}

pub record HttpPost : Type 0 where
  pub url : String
  pub payload : Envelope
  pub content_type : String
  pub headers : Headers
  pub timeout : ℕ
  pub max_redirects : ℕ

pub record HttpResponse : Type 0 where
  pub status : ℕ
  pub data' : Body

pub record HttpChannel (E : Type 0) : Type 0 where
  pub network : E → Network
  -- the milliseconds that the check of a URL takes
  pub resolving : String → E → ℕ
  pub post : HttpPost → E → (Result HttpResponse × ℕ) × E
  -- `!this.config.isProduction`
  pub allow_local_urls : Bool
  pub timeout : ℕ

-- `typeof data === 'string' ? data : JSON.stringify(data)`
unfoldable pub data_text : Body → Text
data_text (string_body text') = text'
data_text (json_body text') = text'

unfoldable pub to_result : Result HttpResponse → Result DeliveryResult
unfolding data_text
to_result (err e) = err e
to_result (ok response) = ok (record { status = response.status; data' = data_text response.data' })

module _ {E : Type 0} (channel : HttpChannel E) where
  unfoldable pub post_of : Request → HttpPost
  post_of request = record {
    url = request.url;
    payload = request.payload;
    content_type = "application/json";
    headers = request.headers;
    timeout = channel.timeout;
    max_redirects = 0;
  }

  abbrev delivered : ℕ → (Result HttpResponse × ℕ) × E → (Result DeliveryResult × ℕ) × E
  delivered waited ((r, elapsed), e) = ((to_result r, waited + elapsed), e)

  -- what follows the check of the URL
  unfoldable pub post_if_safe : Request → Result String → E → (Result DeliveryResult × ℕ) × E
  unfolding to_result post_of
  post_if_safe request (err error) e = ((err error, channel.resolving request.url e), e)
  post_if_safe request (ok url) e =
      delivered (channel.resolving request.url e) (channel.post (post_of request) e)

  unfoldable pub send : Request → E → (Result DeliveryResult × ℕ) × E
  unfolding post_if_safe
  send request e =
      post_if_safe request
        (assert_safe_webhook_url (channel.network e) channel.allow_local_urls request.url) e

  -- The services of the executor with this channel.
  abbrev pub with_http : Services E → Services E
  with_http svc = record svc { send = send }
