-- ===== src/Tests/Examples.antt =====
-- The theorems on the worker's side, applied to the small deployment.
use webhook_engine.Base.{◌++◌, arith, ◌≡◌, refl, some, none, [], ◌∷◌, find?, ok, final}
use webhook_engine.Prisma.{reference, reference-IsLawful}
use webhook_engine.Schema.{DeliveryStatus, EventStatus, Db}
use webhook_engine.Dispatcher.Repository.{
  mark_rate_limited_and_schedule, outbox_row, DispatchableDelivery, has_id, claim_for_processing,
  claimed, set_event_status, mark_dead_letter,
}
use webhook_engine.Dispatcher.Overtaken.{rate_limited_overtaken}
use webhook_engine.Dispatcher.Claims.{claim_exclusive, claim_result}
use webhook_engine.Dispatcher.Executor.{attempt}
use webhook_engine.Dispatcher.Executor.Outcome.{Settles, attempt-Settles}
use webhook_engine.Dispatcher.Retry.{next_attempt_delay}
use webhook_engine.Dispatcher.Process.{process}
use webhook_engine.Dispatcher.Process.Sends.{SendsOnce, process-SendsOnce}
use webhook_engine.Invariant.{Consistent}
use webhook_engine.Invariant.Steps.{Reach, start, then, claim, dead_letter}
use webhook_engine.Invariant.Worker.{process-Consistent}
use webhook_engine.Tests.Data.{
  deployment, deployment-Consistent, world, services, no_limit, to_send, order, order_delivery,
}

abbrev given_up : Db
given_up =
    final (mark_dead_letter reference 9 4 503 [])
      (final (claim_for_processing reference 7 4 1) deployment)

abbrev steps : Reach reference deployment given_up
steps = then (then start (claim 7 4 1)) (dead_letter 9 4 503 [])

process-Consistent_example : Consistent (final (process reference services no_limit 4 1) world).db
process-Consistent_example =
    process-Consistent reference reference-IsLawful services no_limit 4 1 world
      deployment-Consistent

attempt-Settles_example :
    Settles deployment order_delivery 1020 DeliveryStatus.failed 2020
      (attempt services reference (some to_send) world)
unfolding attempt next_attempt_delay
attempt-Settles_example =
    attempt-Settles reference reference-IsLawful services to_send order world refl refl

process-SendsOnce_example :
    SendsOnce deployment [] 4 1 (final (process reference services no_limit 4 1) world).sent
process-SendsOnce_example =
    process-SendsOnce reference reference-IsLawful services no_limit 4 1 world deployment-Consistent

-- The delivery as the first worker gets it, and the database then.
abbrev taken : DispatchableDelivery
taken = record to_send { delivery = claimed 7 order_delivery }

abbrev deployment_taken : Db
deployment_taken = record deployment {
  events = set_event_status 7 EventStatus.processing order ∷ [];
  deliveries = claimed 7 order_delivery ∷ [];
}

taken_once : claim_for_processing reference 7 4 1 deployment ≡ (ok (some taken), deployment_taken)
unfolding claim_for_processing
taken_once = refl

claim_exclusive_example :
    claim_for_processing reference 8 4 2 deployment_taken ≡ (ok none, deployment_taken)
claim_exclusive_example =
    claim_exclusive reference reference-IsLawful 7 4 1 8 2 deployment deployment_taken taken
      deployment-Consistent taken_once

claim_result_example :
    (find? (has_id 4) deployment_taken.deliveries ≡ some taken.delivery)
    × (taken.delivery.id ≡ 4)
    × (taken.delivery.status ≡ DeliveryStatus.processing)
    × (taken.delivery.attempts ≡ 1)
    × (taken.delivery.last_attempt_at ≡ some 7)
claim_result_example =
    claim_result reference reference-IsLawful 7 4 1 deployment deployment_taken taken
      deployment-Consistent taken_once

deployment_taken-Consistent : Consistent deployment_taken
deployment_taken-Consistent = record {
  distinct = (tt, tt);
  fresh = (omega arith, tt);
  known = (omega arith, tt);
  numbered = (omega arith, tt);
  agree = (refl, tt);
}

rate_limited_overtaken_example :
    (t : Db) × (mark_rate_limited_and_schedule reference 8 4 900 1 deployment_taken ≡ (ok tt, t))
    × (t.outbox ≡ deployment.outbox ++ outbox_row 8 6 4 900 1 ∷ [])
    × (claim_for_processing reference 1000 4 1 t ≡ (ok none, t))
rate_limited_overtaken_example =
    rate_limited_overtaken reference reference-IsLawful 8 4 900 1 1000 deployment_taken
      (claimed 7 order_delivery) deployment_taken-Consistent refl refl
