-- ===== src/Events/Ingest/FanOut.antt =====
-- The deliveries of an accepted event: `createForTenant` of
-- src/events/infrastructure/persistence/prisma-events.repository.ts
use webhook_engine.Base.{
  ℕ, suc, ◌+◌, ◌==◌, ◌≡◌, refl, ap, ◌↔◌, some, none, List, [], ◌∷◌, ◌++◌, map, All, find?, filter,
  length, ok,
}
use webhook_engine.Prisma.{Prisma, IsLawful, lawful-eq}
use webhook_engine.Schema.{
  DeliveryStatus, no_subscribers, Tenant, Endpoint, Delivery, DeliveryOutbox, Db,
}
use webhook_engine.Events.Ingest.{
  IngestEventCommand, CreateWebhookEventResult, has_key, is_receiver, create_for_found,
  create_for_tenant, new_event,
}
use webhook_engine.Invariant.NewRows.{delivery_rows, outbox_rows}
use webhook_engine.Invariant.Ingest.{create_event-eq, after_ingest, rows_added}

-- One delivery per receiver and one outbox row per delivery, in the order of the receivers.
pub record FansOut (now : ℕ) (receivers : List Endpoint) (s s' : Db)
    (result : CreateWebhookEventResult) : Type 0 where
  pub added_event : s'.events ≡ s.events ++ result.event ∷ []
  pub no_receiver : (result.event.status ≡ no_subscribers) ↔ (receivers ≡ [])
  pub deliveries : List Delivery
  pub added_deliveries : s'.deliveries ≡ s.deliveries ++ deliveries
  pub returned : result.delivery_ids ≡ map (λ (d : Delivery). d.id) deliveries
  pub per_receiver :
      map (λ (d : Delivery). d.endpoint_id) deliveries ≡ map (λ (e : Endpoint). e.id) receivers
  pub initial :
      All
        (λ (d : Delivery).
          (d.event_id ≡ result.event.id) × (d.status ≡ DeliveryStatus.pending) × (d.attempts ≡ 0))
        deliveries
  pub rows : List DeliveryOutbox
  pub added_rows : s'.outbox ≡ s.outbox ++ rows
  pub per_delivery :
      map (λ (row : DeliveryOutbox). row.delivery_id) rows ≡ map (λ (d : Delivery). d.id) deliveries
  pub due :
      All
        (λ (row : DeliveryOutbox).
          (row.attempt_number ≡ 1) × (row.available_at ≡ now) × (row.published_at ≡ none))
        rows

delivery_rows-endpoints :
    (now event_id n : ℕ) (es : List Endpoint)
    → map (λ (d : Delivery). d.endpoint_id) (delivery_rows now event_id n es)
      ≡ map (λ (e : Endpoint). e.id) es
unfolding delivery_rows
delivery_rows-endpoints now event_id n [] = refl
delivery_rows-endpoints now event_id n (e ∷ es) =
    ap (λ ids. e.id ∷ ids) (delivery_rows-endpoints now event_id (suc n) es)

delivery_rows-initial :
    (now event_id n : ℕ) (es : List Endpoint)
    → All
        (λ (d : Delivery).
          (d.event_id ≡ event_id) × (d.status ≡ DeliveryStatus.pending) × (d.attempts ≡ 0))
        (delivery_rows now event_id n es)
unfolding delivery_rows
delivery_rows-initial now event_id n [] = tt
delivery_rows-initial now event_id n (e ∷ es) =
    ((refl, refl, refl), delivery_rows-initial now event_id (suc n) es)

outbox_rows-deliveries :
    (now n : ℕ) (ds : List Delivery)
    → map (λ (row : DeliveryOutbox). row.delivery_id) (outbox_rows now n ds)
      ≡ map (λ (d : Delivery). d.id) ds
unfolding outbox_rows
outbox_rows-deliveries now n [] = refl
outbox_rows-deliveries now n (d ∷ ds) =
    ap (λ ids. d.id ∷ ids) (outbox_rows-deliveries now (suc n) ds)

outbox_rows-due :
    (now n : ℕ) (ds : List Delivery)
    → All
        (λ (row : DeliveryOutbox).
          (row.attempt_number ≡ 1) × (row.available_at ≡ now) × (row.published_at ≡ none))
        (outbox_rows now n ds)
unfolding outbox_rows
outbox_rows-due now n [] = tt
outbox_rows-due now n (d ∷ ds) = ((refl, refl, refl), outbox_rows-due now (suc n) ds)

new_event-no_subscribers :
    (now id : ℕ) (input : IngestEventCommand) (es : List Endpoint)
    → ((new_event now id input es).status ≡ no_subscribers) ↔ (es ≡ [])
new_event-no_subscribers now id input [] = (λ _. refl, λ _. refl)
new_event-no_subscribers now id input (e ∷ es) = (λ h. absurd cc, λ h. absurd cc)

after_ingest-FansOut :
    (now : ℕ) (input : IngestEventCommand) (es : List Endpoint) (s : Db)
    → FansOut now es s (after_ingest now input es s) (record {
      event = new_event now s.next_id input es;
      delivery_ids = map (λ (d : Delivery). d.id) (rows_added now input es s);
    })
after_ingest-FansOut now input es s = record {
  added_event = refl;
  no_receiver = new_event-no_subscribers now s.next_id input es;
  deliveries = rows_added now input es s;
  added_deliveries = refl;
  returned = refl;
  per_receiver = delivery_rows-endpoints now s.next_id (suc s.next_id) es;
  initial = delivery_rows-initial now s.next_id (suc s.next_id) es;
  rows = outbox_rows now (suc s.next_id + length es) (rows_added now input es s);
  added_rows = refl;
  per_delivery = outbox_rows-deliveries now (suc s.next_id + length es) (rows_added now input es s);
  due = outbox_rows-due now (suc s.next_id + length es) (rows_added now input es s);
}

-- `createForTenant`, for a tenant that exists and a key that it has not used, succeeds and adds the
-- event, one PENDING delivery for each active endpoint of the tenant that subscribes to the event's
-- type or to all, and one outbox row for each delivery, due now, for the first attempt. The event is
-- in NO_SUBSCRIBERS exactly when there is no such endpoint.
pub create_for_tenant-FansOut :
    (db : Prisma)
    → IsLawful db
    → (now : ℕ) (input : IngestEventCommand) (t : Tenant) (s : Db)
    → find? (λ (x : Tenant). x.id == input.tenant_id) s.tenants ≡ some t
    → find? (has_key input.tenant_id input.idempotency_key) s.events ≡ none
    → (result : CreateWebhookEventResult) × (s' : Db) × (create_for_tenant db now input s
        ≡ (ok result, s'))
      × FansOut now (filter (is_receiver s.subscriptions t.id input.type) s.endpoints) s s' result
unfolding create_for_tenant create_for_found
create_for_tenant-FansOut db law now input t s found fresh' =
    let es = filter (is_receiver s.subscriptions t.id input.type) s.endpoints in
    (
      record {
        event = new_event now s.next_id input es;
        delivery_ids = map (λ (d : Delivery). d.id) (rows_added now input es s);
      },
      after_ingest now input es s,
      rw (lawful-eq db law, found) (create_event-eq now input es s fresh'),
      after_ingest-FansOut now input es s,
    )
