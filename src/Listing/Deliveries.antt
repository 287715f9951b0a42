-- ===== src/Listing/Deliveries.antt =====
-- src/deliveries/infrastructure/persistence/prisma-deliveries.repository.ts (`findAll`) and
-- src/deliveries/application/use-cases/list-deliveries.use-case.ts
use webhook_engine.Base.{
  ℕ, ◌==◌, Bool, true, false, ◌&&◌, Option, none, some, List, map, length, any, String, M, ok,
}
use webhook_engine.Prisma.{Prisma}
use webhook_engine.Schema.{
  DeliveryStatus, success, dlq, cancelled, Tenant, WebhookEvent, Delivery, Db,
}
use webhook_engine.Listing.{Pagination, pagination, page_of, or_default, matches_id, is_within}
use webhook_engine.Listing.Events.{
  TenantName, EndpointUrl, tenant_name, active_url_of, endpoint_of, map_option,
}

pub record DeliveryListQuery : Type 0 where
  pub tenant_id : ℕ
  pub status : Option DeliveryStatus
  pub event_id : Option ℕ
  pub endpoint_id : Option ℕ
  pub from : Option ℕ
  pub to : Option ℕ
  pub page : ℕ
  pub limit : ℕ

-- `event: { select: { id, type, createdAt, tenant } }`
pub record EventBrief : Type 0 where
  pub id : ℕ
  pub type : String
  pub created_at : ℕ
  pub tenant : Option TenantName

pub record DeliveryView : Type 0 where
  pub delivery : Delivery
  pub event : Option EventBrief
  pub endpoint : Option EndpointUrl

pub record PaginatedDeliveries : Type 0 where
  pub deliveries : List DeliveryView
  pub pagination : Pagination

abbrev pub same_delivery_status : DeliveryStatus → DeliveryStatus → Bool
same_delivery_status DeliveryStatus.pending DeliveryStatus.pending = true
same_delivery_status DeliveryStatus.processing DeliveryStatus.processing = true
same_delivery_status success success = true
same_delivery_status DeliveryStatus.failed DeliveryStatus.failed = true
same_delivery_status dlq dlq = true
same_delivery_status cancelled cancelled = true
same_delivery_status _ _ = false

abbrev pub matches_delivery_status : Option DeliveryStatus → DeliveryStatus → Bool
matches_delivery_status none value = true
matches_delivery_status (some status) value = same_delivery_status value status

-- `event: { tenantId }`
abbrev pub belongs_to_tenant : List WebhookEvent → ℕ → Delivery → Bool
belongs_to_tenant events tenant_id d =
    any (λ (e : WebhookEvent). e.id == d.event_id && e.tenant_id == tenant_id) events

-- `where`
unfoldable pub matches_delivery : List WebhookEvent → DeliveryListQuery → Delivery → Bool
matches_delivery events query d =
    belongs_to_tenant events query.tenant_id d
    && matches_delivery_status query.status d.status
    && matches_id query.event_id d.event_id
    && matches_id query.endpoint_id d.endpoint_id
    && is_within query.from query.to d.created_at

module _ (db : Prisma) where
  abbrev event_brief : Db → WebhookEvent → EventBrief
  event_brief s e = record {
    id = e.id;
    type = e.type;
    created_at = e.created_at;
    tenant = map_option tenant_name (db.find_first (λ (t : Tenant). t.id == e.tenant_id) s.tenants);
  }

  -- `include`
  unfoldable pub delivery_view : Db → Delivery → DeliveryView
  delivery_view s d = record {
    delivery = d;
    event =
        map_option (event_brief s)
          (db.find_first (λ (e : WebhookEvent). e.id == d.event_id) s.events);
    endpoint = endpoint_of db s active_url_of d;
  }

  unfoldable pub find_all_deliveries :
      (DeliveryListQuery → List Delivery → List Delivery)
      → DeliveryListQuery
      → M Db PaginatedDeliveries
  unfolding delivery_view
  find_all_deliveries order_by_created_at query s =
      let found = db.find_many (matches_delivery s.events query) s.deliveries in
      (
        ok (record {
          deliveries =
              map (delivery_view s)
                (page_of query.page query.limit (order_by_created_at query found));
          pagination = pagination query.page query.limit (length found);
        }),
        s,
      )

-- A query as the controller passes it, with or without a page and a limit.
pub record PartialDeliveryQuery : Type 0 where
  pub query : DeliveryListQuery
  pub given_page : Option ℕ
  pub given_limit : Option ℕ

unfoldable pub list_deliveries :
    Prisma
    → (DeliveryListQuery → List Delivery → List Delivery)
    → PartialDeliveryQuery
    → M Db PaginatedDeliveries
unfolding find_all_deliveries
list_deliveries db order_by_created_at partial =
    find_all_deliveries db order_by_created_at (record partial.query {
      page = or_default partial.given_page 1;
      limit = or_default partial.given_limit 20;
    })
