-- ===== src/Schema.antt =====
-- prisma/schema.prisma and the domain types of src/deliveries/domain, src/events/domain and
-- src/tenants/domain: the rows of the tables, and the database as the record of its tables.
-- A uuid is a number, compared for equality only; a `DateTime` is in milliseconds.
pub mod Table
use webhook_engine.Base.{ℕ, Bool, true, false, Option, List, String, Text}

pub data DeliveryStatus : Type 0 where
  pending processing success failed dlq cancelled : DeliveryStatus

pub data EventStatus : Type 0 where
  pending processing done failed no_subscribers : EventStatus

pub record Tenant : Type 0 where
  pub id : ℕ
  pub name : String
  pub api_key_hash : String
  pub rate_limit : ℕ
  pub is_active : Bool
  pub created_at : ℕ
  pub updated_at : ℕ

pub record Endpoint : Type 0 where
  pub id : ℕ
  pub tenant_id : ℕ
  pub url : String
  pub secret_key : String
  pub previous_secret_key : Option String
  pub previous_secret_expires_at : Option ℕ
  pub rate_limit : Option ℕ
  pub is_active : Bool
  pub created_at : ℕ
  pub updated_at : ℕ

pub record EndpointSubscription : Type 0 where
  pub endpoint_id : ℕ
  pub event_type : String

pub record WebhookEvent : Type 0 where
  pub id : ℕ
  pub tenant_id : ℕ
  pub idempotency_key : String
  pub type : String
  -- a JSON value, serialised
  pub payload : Text
  pub status : EventStatus
  pub created_at : ℕ
  pub updated_at : ℕ

pub record Delivery : Type 0 where
  pub id : ℕ
  pub event_id : ℕ
  pub endpoint_id : ℕ
  pub status : DeliveryStatus
  pub attempts : ℕ
  pub last_attempt_at : Option ℕ
  pub next_attempt_at : Option ℕ
  pub http_status_code : Option ℕ
  pub response_snippet : Option Text
  pub created_at : ℕ
  pub updated_at : ℕ

pub record DeliveryOutbox : Type 0 where
  pub id : ℕ
  pub delivery_id : ℕ
  pub available_at : ℕ
  pub attempt_number : ℕ
  pub published_at : Option ℕ
  pub attempts : ℕ
  pub last_error : Option Text
  pub created_at : ℕ

pub record Db : Type 0 where
  pub tenants : List Tenant
  pub endpoints : List Endpoint
  pub subscriptions : List EndpointSubscription
  pub events : List WebhookEvent
  pub deliveries : List Delivery
  pub outbox : List DeliveryOutbox
  -- every uuid generated later is this number or a greater one
  pub next_id : ℕ

abbrev pub is_pending : DeliveryStatus → Bool
is_pending DeliveryStatus.pending = true
is_pending _ = false

abbrev pub is_processing : DeliveryStatus → Bool
is_processing DeliveryStatus.processing = true
is_processing _ = false

abbrev pub is_success : DeliveryStatus → Bool
is_success success = true
is_success _ = false
