-- ===== src/Tests/MoreExamples.antt =====
-- The theorems on accepting events, replays, rate limits and retries, applied to concrete inputs.
use webhook_engine.Base.{
  ◌+◌, ◌*◌, ◌^◌, ◌≤◌, ◌<◌, ◌≡◌, refl, ◌⊎◌, ◌↔◌, true, false, some, none, [], ◌∷◌, ◌++◌, find?, ok,
  err, p2002, http_exception, pure, final, arith, All,
}
use webhook_engine.Prisma.{reference, reference-IsLawful}
use webhook_engine.Schema.{EventStatus, done, success, dlq, Db}
use webhook_engine.Metrics
use webhook_engine.Dispatcher.Policy.{
  IsUnfinished, IsFailure, Any, calculate_event_status, calculate_event_status_cases,
}
use webhook_engine.Dispatcher.Repository.{has_id, is_claimed_by, outbox_row}
use webhook_engine.Dispatcher.Process.{RateScope}
use webhook_engine.Dispatcher.Retry.{next_attempt_delay, calculate_backoff_delay}
use webhook_engine.Dispatcher.Retry.Bounds.{
  next_attempt_delay-le-max, calculate_backoff_delay_bounds,
}
use webhook_engine.Dispatcher.RateLimit.Window.{admitted, sum, admitted-le}
use webhook_engine.Deliveries.{reset, find_delivery, replay_delivery, get_delivery}
use webhook_engine.Deliveries.Replay.{replay_foreign, replay_resets}
use webhook_engine.Events.Ingest.{
  CreateWebhookEventResult, create_for_tenant, ingest, already_accepted,
}
use webhook_engine.Events.Ingest.FanOut.{FansOut, create_for_tenant-FansOut}
use webhook_engine.Events.Ingest.Once.{create_for_tenant_once, ingest_again, ingest_unknown_tenant}
use webhook_engine.Events.Publisher.{publish_pending}
use webhook_engine.Events.Publisher.Rounds.{publish_pending-idle}
use webhook_engine.Tests.Data.{
  deployment, world, order, order_delivery, receiver, shop, another_order, same_order,
  unknown_order, retries, half, no_dates, publisher, publisher_services,
}
use webhook_engine.Tests.RedisData.{memory, memory-IsRedis, no_buckets}

create_for_tenant-FansOut_example :
    (result : CreateWebhookEventResult) × (s' : Db) × (create_for_tenant reference 50 another_order
        deployment
      ≡ (ok result, s'))
    × FansOut 50 (receiver ∷ []) deployment s' result
create_for_tenant-FansOut_example =
    create_for_tenant-FansOut reference reference-IsLawful 50 another_order shop deployment refl
      refl

-- The database after the second order was accepted, and what the call gave.
abbrev accepted_order : CreateWebhookEventResult
accepted_order = record {
  event = record {
    id = 6;
    tenant_id = 1;
    idempotency_key = "order-2";
    type = "order.paid";
    payload = another_order.payload;
    status = EventStatus.pending;
    created_at = 50;
    updated_at = 50;
  };
  delivery_ids = 7 ∷ [];
}

abbrev deployment_accepted : Db
deployment_accepted = final (create_for_tenant reference 50 another_order) deployment

accepted_once :
    create_for_tenant reference 50 another_order deployment
    ≡ (ok accepted_order, deployment_accepted)
unfolding create_for_tenant
accepted_once = refl

create_for_tenant_once_example :
    create_for_tenant reference 60 another_order deployment_accepted
    ≡ (err p2002, deployment_accepted)
create_for_tenant_once_example =
    create_for_tenant_once reference reference-IsLawful 50 60 another_order another_order deployment
      deployment_accepted accepted_order refl refl accepted_once

ingest_again_example : ingest reference (pure tt) same_order world ≡ (
  ok (already_accepted "order-1"),
  record world { counters = Metrics.increment "events_idempotent_replays_total" 1 [] },
)
ingest_again_example =
    ingest_again reference reference-IsLawful (pure tt) same_order shop order world refl refl

ingest_unknown_tenant_example :
    ingest reference (pure tt) unknown_order world
    ≡ (err (http_exception 404 "Tenant not found"), world)
ingest_unknown_tenant_example =
    ingest_unknown_tenant reference reference-IsLawful (pure tt) unknown_order world refl

replay_foreign_example :
    (replay_delivery reference 9 4 77 deployment
      ≡ (err (http_exception 404 "Delivery with this ID not found"), deployment))
    × (get_delivery reference 4 77 deployment
        ≡ (err (http_exception 404 "Delivery with this ID not found"), deployment))
replay_foreign_example =
    replay_foreign reference reference-IsLawful 9 4 77 deployment
      (λ _. (λ _ h. omega (arith, h), tt), tt)

own_delivery : find_delivery reference 4 1 deployment ≡ (ok (some order_delivery), deployment)
unfolding find_delivery
own_delivery = refl

replay_resets_example :
    (t : Db) × (replay_delivery reference 9 4 1 deployment ≡ (ok (reset 9 order_delivery), t))
    × (find? (has_id 4) t.deliveries ≡ some (reset 9 order_delivery))
    × (is_claimed_by 4 1 (reset 9 order_delivery) ≡ true)
    × (t.outbox ≡ deployment.outbox ++ outbox_row 9 6 4 9 1 ∷ [])
replay_resets_example =
    replay_resets reference reference-IsLawful 9 4 1 deployment order_delivery order own_delivery
      refl refl refl

admitted-le_example :
    1000 * admitted memory (RateScope.tenant 1) 2 0 (0 ∷ 0 ∷ 0 ∷ 500 ∷ []) no_buckets
    ≤ 1000 * 2 + sum (0 ∷ 0 ∷ 0 ∷ 500 ∷ []) * 2
admitted-le_example =
    admitted-le memory memory-IsRedis (RateScope.tenant 1) 2 0 (0 ∷ 0 ∷ 0 ∷ 500 ∷ []) no_buckets

next_attempt_delay-le-max_example : next_attempt_delay no_dates 1000 503 none 9 retries half ≤ 60000
next_attempt_delay-le-max_example = next_attempt_delay-le-max no_dates 1000 503 none 9 retries half

calculate_backoff_delay_bounds_example :
    (4 * 1 ^ 2 * calculate_backoff_delay 3 retries half ≤ 5 * (1000 * 2 ^ 2))
    × ((calculate_backoff_delay 3 retries half ≡ 60000)
        ⊎ (3 * (1000 * 2 ^ 2) < 4 * 1 ^ 2 * (calculate_backoff_delay 3 retries half + 1)))
calculate_backoff_delay_bounds_example =
    calculate_backoff_delay_bounds 3 retries half (omega arith) (omega arith)

publish_pending-idle_example :
    ((false ≡ true) × (publish_pending reference publisher_services publisher ≡ (ok tt, publisher)))
    ⊎ ((false ≡ false)
        × ((final (publish_pending reference publisher_services) publisher).publishing ≡ false))
publish_pending-idle_example = publish_pending-idle reference publisher_services publisher

calculate_event_status_cases_example :
    ((calculate_event_status (success ∷ dlq ∷ []) ≡ EventStatus.processing)
      ↔ Any IsUnfinished (success ∷ dlq ∷ []))
    × ((calculate_event_status (success ∷ dlq ∷ []) ≡ done)
        ↔ All (λ st. st ≡ success) (success ∷ dlq ∷ []))
    × ((calculate_event_status (success ∷ dlq ∷ []) ≡ EventStatus.failed)
        ↔ ((¬ Any IsUnfinished (success ∷ dlq ∷ [])) × Any IsFailure (success ∷ dlq ∷ [])))
calculate_event_status_cases_example = calculate_event_status_cases (success ∷ dlq ∷ [])
