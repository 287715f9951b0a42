-- ===== src/Events/Scheduler.antt =====
-- src/events/infrastructure/queue/delivery-outbox-scheduler.service.ts: what the timer runs, at the
-- start and at every interval. A run that fails is logged, and the next one follows.
use webhook_engine.Base.{ℕ, zero, suc, M, pure, try_catch, ◌>>◌}

module _ {S : Type 0} (publish_pending : M S (Unit {0})) where
  unfoldable pub run_publisher : M S (Unit {0})
  run_publisher = try_catch publish_pending (λ _. pure tt)

  -- `onApplicationBootstrap`, and the intervals that follow.
  unfoldable pub run_schedule : ℕ → M S (Unit {0})
  unfolding run_publisher
  run_schedule zero = run_publisher
  run_schedule (suc intervals) = run_schedule intervals >> run_publisher
