-- ===== src/Tests/PublisherExamples.antt =====
-- The theorem on the loop of the outbox publisher, applied to an outbox of two rows and a queue that
-- has room for one job.
use webhook_engine.Base.{ℕ, zero, suc, ◌⊎◌, refl, List, [], ◌∷◌, M, other_error, ok, err, none}
use webhook_engine.Prisma.{reference, reference-IsLawful}
use webhook_engine.Schema.{DeliveryOutbox}
use webhook_engine.World.{World}
use webhook_engine.Dispatcher.Repository.{outbox_row}
use webhook_engine.Events.Queue.{Job}
use webhook_engine.Events.Publisher.{PublisherServices, publish_due}
use webhook_engine.Events.Publisher.InOrder.{IsComplete, IsStopped, publish_due-InOrder}
use webhook_engine.Tests.Data.{deployment}

-- The state of the queue is the number of its free places.
abbrev add_if_room : Job → M ℕ (Unit {0})
add_if_room job zero = (err (other_error []), zero)
add_if_room job (suc n) = (ok tt, n)

abbrev small_queue : PublisherServices ℕ
small_queue = record {
  queue = record { add = add_if_room; job_state = λ id e. (ok none, e) };
  order_by_created_at = λ rows. rows;
  event_retention_days = 0;
  stale_delivery_age = 60000;
  error_text = λ e. [];
}

abbrev two_rows : List DeliveryOutbox
two_rows = outbox_row 5 5 4 5 1 ∷ outbox_row 6 5 4 5 2 ∷ []

abbrev two_due : World ℕ
two_due = record {
  db = record deployment { outbox = two_rows };
  now = 1000;
  counters = [];
  sent = [];
  external = 1;
}

publish_due-InOrder_example :
    IsComplete small_queue 1000 two_due.db 1 two_rows (publish_due reference small_queue two_due)
    ⊎ IsStopped small_queue 1000 two_due.db 1 two_rows (publish_due reference small_queue two_due)
publish_due-InOrder_example =
    publish_due-InOrder reference reference-IsLawful small_queue (λ P xs h. h) two_due two_rows refl
