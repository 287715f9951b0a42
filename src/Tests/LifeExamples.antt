-- ===== src/Tests/LifeExamples.antt =====
-- The theorems on the life of a delivery, applied to the small deployment.
use webhook_engine.Base.{ℕ, ◌≤◌, refl, final, arith, [], ◌∷◌}
use webhook_engine.Prisma.{reference, reference-IsLawful}
use webhook_engine.Schema.{success, done, Db}
use webhook_engine.Dispatcher.Repository.{
  DeliveryFailureInput, claim_for_processing, mark_dead_letter,
}
use webhook_engine.Dispatcher.Exhaustion.Rounds.{IsWaiting, IsFinishedBy, attempts-Finish}
use webhook_engine.Invariant.Steps.{Reach, start, then, claim, dead_letter}
use webhook_engine.Invariant.Lifecycle
use webhook_engine.Invariant.Lifecycle.Refinement.{actions, Reach-Refines}
use webhook_engine.Tests.Data.{
  deployment, world, services, to_send, shop, receiver, order, order_delivery,
}

abbrev dead : Db
dead =
    final (mark_dead_letter reference 9 4 503 [])
      (final (claim_for_processing reference 7 4 1) deployment)

abbrev steps : Reach reference deployment dead
steps = then (then start (claim 7 4 1)) (dead_letter 9 4 503 [])

Reach-Refines_example :
    Lifecycle.Refines (Lifecycle.HasLived (actions steps)) deployment.deliveries dead.deliveries
Reach-Refines_example = Reach-Refines reference reference-IsLawful deployment dead steps

waiting : IsWaiting 4 2 3 0 deployment
waiting = record {
  related = record {
    row = order_delivery;
    endpoint = receiver;
    event = order;
    tenant = shop;
    has_row = refl;
    endpoint_key = refl;
    event_key = refl;
    has_endpoint = refl;
    has_event = refl;
    has_tenant = refl;
  };
  waits = refl;
}

attempts-Finish_example : (m : ℕ) × (m ≤ 5) × IsFinishedBy services reference to_send 1 m world
attempts-Finish_example =
    attempts-Finish reference reference-IsLawful services to_send 2 3 0 world waiting (omega arith)

-- The delivery succeeded for another worker, and its event is DONE.
abbrev succeeded : Db
succeeded = record deployment {
  events = record order { status = done } ∷ [];
  deliveries = record order_delivery { status = success; attempts = 1 } ∷ [];
}

abbrev timed_out : DeliveryFailureInput
timed_out = record {
  id = 4;
  status_code = 504;
  response_snippet = [];
  next_attempt_at = 99;
  next_attempt_number = 2;
}
