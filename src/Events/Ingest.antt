-- ===== src/Events/Ingest.antt =====
-- Accepting an event: `createForTenant` of
-- src/events/infrastructure/persistence/prisma-events.repository.ts and
-- src/events/application/use-cases/ingest-event.use-case.ts.
pub mod FanOut
pub mod Once
use webhook_engine.Base.{
  ℕ, suc, ◌+◌, ◌==◌, if◌then◌else◌, Bool, true, false, ◌&&◌, ◌||◌, Option, none, some, List, [],
  ◌∷◌, map, any, length, String, str_eq, Text, M, Error, p2002, tenant_not_found, http_exception,
  pure, throw, try_catch, ◌>>=◌, ◌>>◌,
}
use webhook_engine.Prisma.{Prisma}
use webhook_engine.Schema.{
  DeliveryStatus, EventStatus, no_subscribers, Tenant, Endpoint, EndpointSubscription, WebhookEvent,
  Delivery, DeliveryOutbox, Db,
}
use webhook_engine.Schema.Table
use webhook_engine.Dispatcher.Repository.{outbox_row}
use webhook_engine.World.{World, on_db, clock, increment, increment_by}

pub record IngestEventCommand : Type 0 where
  pub tenant_id : ℕ
  pub idempotency_key : String
  pub type : String
  pub payload : Text

pub record CreateWebhookEventResult : Type 0 where
  pub event : WebhookEvent
  pub delivery_ids : List ℕ

-- `subscriptions: { some: { eventType: { in: [type, '*'] } } }`
abbrev pub subscribes : List EndpointSubscription → String → Endpoint → Bool
subscribes subscriptions type endpoint =
    any (λ s. s.endpoint_id == endpoint.id && (str_eq s.event_type type || str_eq s.event_type "*"))
      subscriptions

-- The active endpoints of the tenant that are subscribed to the type.
abbrev pub is_receiver : List EndpointSubscription → ℕ → String → Endpoint → Bool
is_receiver subscriptions tenant_id type endpoint =
    endpoint.tenant_id == tenant_id
    && (endpoint.is_active && subscribes subscriptions type endpoint)

-- The unique constraint on `[tenantId, idempotencyKey]`.
abbrev pub has_key : ℕ → String → WebhookEvent → Bool
has_key tenant_id idempotency_key e =
    e.tenant_id == tenant_id && str_eq e.idempotency_key idempotency_key

abbrev initial_status : List Endpoint → EventStatus
initial_status [] = no_subscribers
initial_status (_ ∷ _) = EventStatus.pending

abbrev pub new_event : ℕ → ℕ → IngestEventCommand → List Endpoint → WebhookEvent
new_event now id input receivers = record {
  id = id;
  tenant_id = input.tenant_id;
  idempotency_key = input.idempotency_key;
  type = input.type;
  payload = input.payload;
  status = initial_status receivers;
  created_at = now;
  updated_at = now;
}

abbrev pub new_delivery : ℕ → ℕ → ℕ → ℕ → Delivery
new_delivery now event_id endpoint_id id = record {
  id = id;
  event_id = event_id;
  endpoint_id = endpoint_id;
  status = DeliveryStatus.pending;
  attempts = 0;
  last_attempt_at = none;
  next_attempt_at = none;
  http_status_code = none;
  response_snippet = none;
  created_at = now;
  updated_at = now;
}

-- `endpoints.map((endpoint) => ({ id: randomUUID(), … }))`
unfoldable pub deliveries_data : ℕ → ℕ → List Endpoint → M Db (List Delivery)
deliveries_data now event_id [] = pure []
deliveries_data now event_id (endpoint ∷ endpoints) = do
  id ← Table.fresh_id
  rest ← deliveries_data now event_id endpoints
  pure (new_delivery now event_id endpoint.id id ∷ rest)

-- The outbox rows of new deliveries, due at once, for the first attempt.
unfoldable pub outbox_data : ℕ → List Delivery → M Db (List DeliveryOutbox)
outbox_data now [] = pure []
outbox_data now (d ∷ ds) = do
  id ← Table.fresh_id
  rest ← outbox_data now ds
  pure (outbox_row now id d.id now 1 ∷ rest)

module _ (db : Prisma) (now : ℕ) where
  -- `if (deliveriesData.length > 0) { … }`
  unfoldable pub create_deliveries : List Delivery → M Db (Unit {0})
  unfolding outbox_data
  create_deliveries [] = pure tt
  create_deliveries (d ∷ ds) = do
    Table.create_many db Table.delivery (d ∷ ds)
    rows ← outbox_data now (d ∷ ds)
    Table.create_many db Table.delivery_outbox rows

  unfoldable pub create_event : IngestEventCommand → List Endpoint → M Db CreateWebhookEventResult
  unfolding deliveries_data create_deliveries
  create_event input receivers = db.transaction (do
    id ← Table.fresh_id
    event ←
        Table.create db Table.webhook_event (has_key input.tenant_id input.idempotency_key)
          (new_event now id input receivers)
    deliveries ← deliveries_data now event.id receivers
    create_deliveries deliveries
    pure (record { event = event; delivery_ids = map (λ (d : Delivery). d.id) deliveries }))

  -- `if (!tenant) throw …`, and what follows it
  unfoldable pub create_for_found :
      IngestEventCommand → Option Tenant → M Db CreateWebhookEventResult
  unfolding create_event
  create_for_found input none s = throw tenant_not_found s
  create_for_found input (some tenant) s =
      create_event input
        (db.find_many (is_receiver s.subscriptions tenant.id input.type) s.endpoints) s

  unfoldable pub create_for_tenant : IngestEventCommand → M Db CreateWebhookEventResult
  unfolding create_for_found
  create_for_tenant input =
      Table.find_first db Table.tenant (λ t. t.id == input.tenant_id) >>= create_for_found input

pub data IngestReply : Type 0 where
  -- 'Event accepted for processing', with the event's id and the number of deliveries
  accepted : ℕ → ℕ → IngestReply
  -- 'Event already accepted', with the idempotency key
  already_accepted : String → IngestReply

module _ {E : Type 0} (db : Prisma) (publish_pending : M (World E) (Unit {0})) where
  -- the inner `try … catch`
  unfoldable pub publish_now : M (World E) (Unit {0})
  publish_now = try_catch publish_pending (λ _. increment "outbox_publish_errors_total")

  unfoldable pub accept : IngestEventCommand → M (World E) IngestReply
  unfolding create_for_tenant publish_now
  accept command = do
    now ← clock
    result ← on_db (create_for_tenant db now command)
    increment "events_accepted_total"
    increment_by "deliveries_created_total" (length result.delivery_ids)
    publish_now
    pure (accepted result.event.id (length result.delivery_ids))

  unfoldable pub handle_rejection : IngestEventCommand → Error → M (World E) IngestReply
  handle_rejection command p2002 = do
    increment "events_idempotent_replays_total"
    pure (already_accepted command.idempotency_key)
  handle_rejection command tenant_not_found = throw (http_exception 404 "Tenant not found")
  handle_rejection command error = throw error

  unfoldable pub ingest : IngestEventCommand → M (World E) IngestReply
  unfolding accept handle_rejection
  ingest command = try_catch (accept command) (handle_rejection command)
