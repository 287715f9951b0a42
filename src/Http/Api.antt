-- ===== src/Http/Api.antt =====
-- The routes of a tenant: src/endpoints/presentation/http/endpoints.controller.ts,
-- src/deliveries/presentation/http/deliveries.controller.ts and
-- src/events/presentation/http/events.controller.ts, behind src/security/tenant-api-key.guard.ts and
-- src/common/api-exception.filter.ts. What `ParseUUIDPipe` and the validation of a body or a query
-- give, a value or a failure, is an argument; the guard runs before them.
use webhook_engine.Base.{
  ℕ, ◌⊎◌, inl, inr, if◌then◌else◌, Option, List, String, str_eq, Text, http_exception, Result, ok,
  err, M, pure, throw, ◌>>=◌, ◌>>◌,
}
use webhook_engine.Prisma.{Prisma}
use webhook_engine.Schema.{Endpoint, WebhookEvent, Delivery, Db}
use webhook_engine.World.{World, on_db, clock}
use webhook_engine.Endpoints.{EndpointInput, EndpointUpdate, EndpointSummary, list_endpoints}
use webhook_engine.Endpoints.UseCases.{
  create_endpoint, update_endpoint, delete_endpoint, rotate_endpoint_secret,
}
use webhook_engine.Deliveries.{get_delivery, replay_delivery}
use webhook_engine.Listing.Deliveries.{
  DeliveryListQuery, PartialDeliveryQuery, PaginatedDeliveries, list_deliveries,
}
use webhook_engine.Listing.Events.{
  EventListQuery, EventView, PartialEventQuery, PaginatedEvents, list_events, get_event,
}
use webhook_engine.Events.Ingest.{IngestReply, ingest}
use webhook_engine.Security.Guards.{tenant_guard, or_empty}
use webhook_engine.Http.Filter.{Framework, RequestInfo, ErrorReply, error_reply}

-- `CreateEventDto`
pub record EventBody : Type 0 where
  pub type : String
  pub payload : Text

pub data Route : Type 0 where
  get_endpoints : Route
  post_endpoint : Result EndpointInput → Route
  patch_endpoint : Result ℕ → Result EndpointUpdate → Route
  remove_endpoint post_rotate_secret : Result ℕ → Route
  get_deliveries : Result PartialDeliveryQuery → Route
  get_delivery_by_id post_replay : Result ℕ → Route
  -- the header `idempotency-key`, and the body
  post_event : Option String → Result EventBody → Route
  get_events : Result PartialEventQuery → Route
  get_event_by_id : Result ℕ → Route

pub data Reply : Type 0 where
  endpoint_summaries : List EndpointSummary → Reply
  created_endpoint : EndpointSummary × String → Reply
  endpoint_summary : EndpointSummary → Reply
  no_content : Reply
  rotated_secret : ℕ × String × ℕ → Reply
  deliveries_page : PaginatedDeliveries → Reply
  one_delivery : Delivery → Reply
  event_answer : IngestReply → Reply
  events_page : PaginatedEvents → Reply
  one_event : EventView Delivery → Reply

-- `@HttpCode`, or the status of the framework for the method
unfoldable pub success_status : Route → ℕ
success_status (post_endpoint body) = 201
success_status (post_rotate_secret id) = 201
success_status (remove_endpoint id) = 204
success_status (post_replay id) = 202
success_status (post_event key body) = 202
success_status _ = 200

-- What the controllers are constructed with.
pub record Backend (E : Type 0) : Type 1 where
  pub db : Prisma
  pub sha256 : Text → String
  pub assert_safe : String → Result String
  pub publish_pending : M (World E) (Unit {0})
  pub endpoints_by_created_at : List Endpoint → List Endpoint
  pub deliveries_by_created_at : DeliveryListQuery → List Delivery → List Delivery
  pub events_by_created_at : EventListQuery → List WebhookEvent → List WebhookEvent
  -- the secret that the request would generate
  pub secret : String

module _ {S : Type 0} where
  -- The value that a pipe gives, or its failure.
  abbrev pub piped : {A : Type 0} → Result A → M S A
  piped r s = (r, s)

  abbrev key_or_400 : String → M S String
  key_or_400 key =
      if str_eq key ""
      then throw (http_exception 400 "Idempotency-Key header is required")
      else pure key

module _ {E : Type 0} (backend : Backend E) where
  -- A use case on the database, at the present time.
  abbrev now_on_db : {A : Type 0} → (ℕ → M Db A) → M (World E) A
  now_on_db m = do now ← clock; on_db (m now)

  unfoldable pub handle_endpoints : ℕ → Route → M (World E) Reply
  handle_endpoints tenant_id (post_endpoint body) = do
    dto ← piped body
    r ←
        now_on_db
          (λ now. create_endpoint backend.db now backend.assert_safe backend.secret tenant_id dto)
    pure (created_endpoint r)
  handle_endpoints tenant_id (patch_endpoint uuid body) = do
    id ← piped uuid
    dto ← piped body
    r ← now_on_db (λ now. update_endpoint backend.db now backend.assert_safe tenant_id id dto)
    pure (endpoint_summary r)
  handle_endpoints tenant_id (remove_endpoint uuid) = do
    id ← piped uuid
    now_on_db (λ now. delete_endpoint backend.db now tenant_id id)
    pure no_content
  handle_endpoints tenant_id (post_rotate_secret uuid) = do
    id ← piped uuid
    r ← now_on_db (λ now. rotate_endpoint_secret backend.db now backend.secret tenant_id id)
    pure (rotated_secret r)
  handle_endpoints tenant_id _ = do
    r ← on_db (list_endpoints backend.db backend.endpoints_by_created_at tenant_id)
    pure (endpoint_summaries r)

  unfoldable pub create_event_route : ℕ → Option String → Result EventBody → M (World E) Reply
  create_event_route tenant_id header body = do
    dto ← piped body
    key ← key_or_400 (or_empty header)
    r ← ingest backend.db backend.publish_pending (record {
      tenant_id = tenant_id;
      idempotency_key = key;
      type = dto.type;
      payload = dto.payload;
    })
    pure (event_answer r)

  -- The tenant of a query is always the one of the guard.
  unfoldable pub handle_deliveries : ℕ → Route → M (World E) Reply
  unfolding handle_endpoints
  handle_deliveries tenant_id (get_deliveries query) = do
    q ← piped query
    r ← on_db (
        list_deliveries backend.db backend.deliveries_by_created_at
          (record q { query = record q.query { tenant_id = tenant_id } }))
    pure (deliveries_page r)
  handle_deliveries tenant_id (get_delivery_by_id uuid) = do
    id ← piped uuid
    r ← on_db (get_delivery backend.db id tenant_id)
    pure (one_delivery r)
  handle_deliveries tenant_id (post_replay uuid) = do
    id ← piped uuid
    r ← now_on_db (λ now. replay_delivery backend.db now id tenant_id)
    pure (one_delivery r)
  handle_deliveries tenant_id route = handle_endpoints tenant_id route

  unfoldable pub handle_events : ℕ → Route → M (World E) Reply
  unfolding handle_deliveries create_event_route
  handle_events tenant_id (post_event header body) = create_event_route tenant_id header body
  handle_events tenant_id (get_events query) = do
    q ← piped query
    r ← on_db (
        list_events backend.db backend.events_by_created_at
          (record q { query = record q.query { tenant_id = tenant_id } }))
    pure (events_page r)
  handle_events tenant_id (get_event_by_id uuid) = do
    id ← piped uuid
    r ← on_db (get_event backend.db id tenant_id)
    pure (one_event r)
  handle_events tenant_id route = handle_deliveries tenant_id route

  -- The handler of a route, in whichever controller it stands.
  unfoldable pub handle : ℕ → Route → M (World E) Reply
  unfolding handle_events
  handle tenant_id route = handle_events tenant_id route

  -- The guard, then the handler.
  unfoldable pub serve : Option Text → Route → M (World E) Reply
  unfolding handle
  serve authorization route =
      on_db (tenant_guard backend.db backend.sha256 authorization) >>= (λ id. handle id route)

  -- The reply with its status, or what the filter makes of a failure.
  abbrev pub answered :
      Framework → RequestInfo → ℕ → Result Reply × World E → ((ℕ × Reply) ⊎ ErrorReply) × World E
  answered framework request status (ok reply, w) = (inl (status, reply), w)
  answered framework request status (err e, w) = (inr (error_reply framework request w.now e), w)

  unfoldable pub respond :
      Framework → RequestInfo → Option Text → Route → World E → ((ℕ × Reply) ⊎ ErrorReply) × World E
  unfolding serve success_status
  respond framework request authorization route w =
      answered framework request (success_status route) (serve authorization route w)
