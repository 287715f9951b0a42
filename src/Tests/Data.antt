-- ===== src/Tests/Data.antt =====
-- A small deployment: one tenant with one subscribed endpoint, and an event with one delivery.
use webhook_engine.Base.{
  refl, true, false, some, none, [], ◌∷◌, units, ok, err, request_error, RequestError, arith,
}
use webhook_engine.Schema.{EventStatus, Tenant, Endpoint, WebhookEvent, Delivery, Db}
use webhook_engine.World.{World}
use webhook_engine.Events.Ingest.{IngestEventCommand, new_delivery}
use webhook_engine.Dispatcher.Repository.{DispatchableDelivery, outbox_row}
use webhook_engine.Dispatcher.Retry.{RetryConfig, Random, HeaderReader}
use webhook_engine.Dispatcher.Executor.{Services}
use webhook_engine.Dispatcher.Process.{RateLimiter}
use webhook_engine.Events.Publisher.{Publisher, PublisherServices}
use webhook_engine.Invariant.{Consistent}

abbrev pub shop : Tenant
shop = record {
  id = 1;
  name = "shop";
  api_key_hash = "hash";
  rate_limit = 100;
  is_active = true;
  created_at = 0;
  updated_at = 0;
}

abbrev pub receiver : Endpoint
receiver = record {
  id = 2;
  tenant_id = 1;
  url = "https://example.org/hook";
  secret_key = "secret";
  previous_secret_key = none;
  previous_secret_expires_at = none;
  rate_limit = none;
  is_active = true;
  created_at = 0;
  updated_at = 0;
}

abbrev pub order : WebhookEvent
order = record {
  id = 3;
  tenant_id = 1;
  idempotency_key = "order-1";
  type = "order.created";
  payload = units "{}";
  status = EventStatus.pending;
  created_at = 5;
  updated_at = 5;
}

abbrev pub order_delivery : Delivery
order_delivery = new_delivery 5 3 2 4

abbrev pub deployment : Db
deployment = record {
  tenants = shop ∷ [];
  endpoints = receiver ∷ [];
  subscriptions = record { endpoint_id = 2; event_type = "*" } ∷ [];
  events = order ∷ [];
  deliveries = order_delivery ∷ [];
  outbox = outbox_row 5 5 4 5 1 ∷ [];
  next_id = 6;
}

pub deployment-Consistent : Consistent deployment
deployment-Consistent = record {
  distinct = (tt, tt);
  fresh = (omega arith, tt);
  known = (omega arith, tt);
  numbered = (omega arith, tt);
  agree = (refl, tt);
}

abbrev pub another_order : IngestEventCommand
another_order = record {
  tenant_id = 1;
  idempotency_key = "order-2";
  type = "order.paid";
  payload = units "{}";
}

abbrev pub same_order : IngestEventCommand
same_order = record {
  tenant_id = 1;
  idempotency_key = "order-1";
  type = "order.created";
  payload = units "{}";
}

abbrev pub unknown_order : IngestEventCommand
unknown_order = record {
  tenant_id = 9;
  idempotency_key = "order-1";
  type = "order.created";
  payload = units "{}";
}

abbrev pub world : World (Unit {0})
world = record { db = deployment; now = 1000; counters = []; sent = []; external = tt }

abbrev pub to_send : DispatchableDelivery
to_send = record { delivery = order_delivery; endpoint = receiver; event = order; tenant = shop }

abbrev pub retries : RetryConfig
retries = record {
  max_attempts = 5;
  base_delay = 1000;
  max_delay = 60000;
  multiplier_num = 2;
  multiplier_den = 1;
}

abbrev pub half : Random
half = record { num = 1; den = 2 }

abbrev pub no_dates : HeaderReader
no_dates = record { millis = λ _. none; date = λ _. none }

abbrev unavailable : RequestError
unavailable = record {
  response_status = some 503;
  response_data = none;
  retry_after = none;
  error_status = none;
  error_message = none;
}

-- The receiver is not available.
abbrev pub services : Services (Unit {0})
services = record {
  send = λ request e. ((err (request_error unavailable), 20), e);
  generate_webhook_headers = λ secret envelope now. record {
    timestamp = "0";
    signature = "v1=0";
    signature_previous = none;
  };
  generate_signature = λ secret timestamp envelope. "0";
  capture_response_bodies = false;
  retry_config = retries;
  client_message = λ e. [];
  reader = no_dates;
  random = half;
}

abbrev pub no_limit : RateLimiter (Unit {0})
no_limit scope limit now e =
    (ok (record { exceeded = false; delay_ms = 0; current_requests = 0 }), e)

abbrev pub publisher_services : PublisherServices (Unit {0})
publisher_services = record {
  queue = record { add = λ job e. (ok tt, e); job_state = λ id e. (ok none, e) };
  order_by_created_at = λ rows. rows;
  event_retention_days = 0;
  stale_delivery_age = 60000;
  error_text = λ e. [];
}

abbrev pub publisher : Publisher (Unit {0})
publisher = record { publishing = false; last_maintenance_at = 0; world = world }
