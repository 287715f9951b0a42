-- ===== src/Listing/Events.antt =====
-- src/events/infrastructure/persistence/prisma-events.repository.ts (`findAll`, `findById`),
-- src/events/application/use-cases/list-events.use-case.ts and get-event.use-case.ts
use webhook_engine.Base.{
  ℕ, ◌==◌, Bool, true, false, ◌&&◌, Option, none, some, List, map, length, String, M, ok, pure,
  throw, http_exception, ◌>>=◌,
}
use webhook_engine.Prisma.{Prisma}
use webhook_engine.Schema.{
  DeliveryStatus, EventStatus, done, no_subscribers, Tenant, Endpoint, WebhookEvent, Delivery, Db,
}
use webhook_engine.Listing.{Pagination, pagination, page_of, or_default, matches_text, is_within}

pub record EventListQuery : Type 0 where
  pub tenant_id : ℕ
  pub status : Option EventStatus
  pub type : Option String
  pub from : Option ℕ
  pub to : Option ℕ
  pub page : ℕ
  pub limit : ℕ

-- `tenant: { select: { id, name } }`
pub record TenantName : Type 0 where
  pub id : ℕ
  pub name : String

-- `endpoint: { select: { id, url } }`, with `isActive` where it is selected
pub record EndpointUrl : Type 0 where
  pub id : ℕ
  pub url : String
  pub is_active : Option Bool

-- An event with its relations; `delivery` is what is selected of a delivery.
pub record EventView (D : Type 0) : Type 0 where
  pub event : WebhookEvent
  pub tenant : Option TenantName
  pub deliveries : List (D × Option EndpointUrl)

pub record PaginatedEvents : Type 0 where
  pub events : List (EventView (ℕ × DeliveryStatus))
  pub pagination : Pagination

abbrev pub same_event_status : EventStatus → EventStatus → Bool
same_event_status EventStatus.pending EventStatus.pending = true
same_event_status EventStatus.processing EventStatus.processing = true
same_event_status done done = true
same_event_status EventStatus.failed EventStatus.failed = true
same_event_status no_subscribers no_subscribers = true
same_event_status _ _ = false

abbrev pub matches_event_status : Option EventStatus → EventStatus → Bool
matches_event_status none value = true
matches_event_status (some status) value = same_event_status value status

-- `where`
unfoldable pub matches_event : EventListQuery → WebhookEvent → Bool
matches_event query e =
    e.tenant_id == query.tenant_id
    && matches_event_status query.status e.status
    && matches_text query.type e.type
    && is_within query.from query.to e.created_at

abbrev pub tenant_name : Tenant → TenantName
tenant_name t = record { id = t.id; name = t.name }

abbrev pub url_of : Endpoint → EndpointUrl
url_of e = record { id = e.id; url = e.url; is_active = none }

abbrev pub active_url_of : Endpoint → EndpointUrl
active_url_of e = record { id = e.id; url = e.url; is_active = some e.is_active }

abbrev pub map_option : {A B : Type 0} → (A → B) → Option A → Option B
map_option f none = none
map_option f (some a) = some (f a)

-- What the list endpoint leaves to the database is a parameter: the sorting by `createdAt` of the rows
-- that a query finds. Rows of the same time may come in another order with each query.
module _ (db : Prisma) where
  abbrev pub endpoint_of : Db → (Endpoint → EndpointUrl) → Delivery → Option EndpointUrl
  endpoint_of s select d =
      map_option select (db.find_first (λ (e : Endpoint). e.id == d.endpoint_id) s.endpoints)

  -- `include`, with what is selected of each delivery
  unfoldable pub event_view :
      {D : Type 0} → (Delivery → D) → (Endpoint → EndpointUrl) → Db → WebhookEvent → EventView D
  event_view select select_endpoint s e = record {
    event = e;
    tenant = map_option tenant_name (db.find_first (λ (t : Tenant). t.id == e.tenant_id) s.tenants);
    deliveries =
        map (λ (d : Delivery). (select d, endpoint_of s select_endpoint d))
          (db.find_many (λ (d : Delivery). d.event_id == e.id) s.deliveries);
  }

  unfoldable pub find_all_events :
      (EventListQuery → List WebhookEvent → List WebhookEvent)
      → EventListQuery
      → M Db PaginatedEvents
  unfolding event_view
  find_all_events order_by_created_at query s =
      let found = db.find_many (matches_event query) s.events in
      (
        ok (record {
          events =
              map (event_view (λ (d : Delivery). (d.id, d.status)) url_of s)
                (page_of query.page query.limit (order_by_created_at query found));
          pagination = pagination query.page query.limit (length found);
        }),
        s,
      )

  -- `where: { id, tenantId }`
  unfoldable pub find_event : ℕ → ℕ → M Db (Option (EventView Delivery))
  unfolding event_view
  find_event id tenant_id s = (
    ok (
        map_option (event_view (λ (d : Delivery). d) active_url_of s)
          (db.find_first (λ (e : WebhookEvent). e.id == id && e.tenant_id == tenant_id) s.events)),
    s,
  )

  -- The message names the event's identifier in the source.
  unfoldable pub event_or_404 : Option (EventView Delivery) → M Db (EventView Delivery)
  event_or_404 none = throw (http_exception 404 "Event with this ID not found")
  event_or_404 (some e) = pure e

  unfoldable pub get_event : ℕ → ℕ → M Db (EventView Delivery)
  unfolding find_event event_or_404
  get_event id tenant_id = find_event id tenant_id >>= event_or_404

-- A query as the controller passes it, with or without a page and a limit.
pub record PartialEventQuery : Type 0 where
  pub query : EventListQuery
  pub given_page : Option ℕ
  pub given_limit : Option ℕ

unfoldable pub list_events :
    Prisma
    → (EventListQuery → List WebhookEvent → List WebhookEvent)
    → PartialEventQuery
    → M Db PaginatedEvents
unfolding find_all_events
list_events db order_by_created_at partial =
    find_all_events db order_by_created_at (record partial.query {
      page = or_default partial.given_page 1;
      limit = or_default partial.given_limit 20;
    })
