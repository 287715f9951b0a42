-- ===== src/Events/Queue.antt =====
-- What the outbox needs of the job queue (BullMQ), which is not part of the repository, and the
-- names and contents of the jobs: src/events/infrastructure/queue and src/queue.
use webhook_engine.Base.{ℕ, Option, M}
use webhook_engine.Schema.{DeliveryOutbox}

-- `outbox-${outboxId}-${publishAttempts}`, or `outbox-${outboxId}` of earlier versions
pub data JobId : Type 0 where
  current : ℕ → ℕ → JobId
  legacy : ℕ → JobId

-- `jobId(outbox.id, outbox.attempts)`
abbrev pub job_id : DeliveryOutbox → JobId
job_id row = current row.id row.attempts

pub record Job : Type 0 where
  pub id : JobId
  pub delivery_id : ℕ
  pub expected_attempt : ℕ

-- What `job.getState()` answers.
pub data JobState : Type 0 where
  completed failed delayed active waiting waiting_children prioritized unknown : JobState

pub record Queue (E : Type 0) : Type 0 where
  -- `queue.add`, which may fail
  pub add : Job → M E (Unit {0})
  -- `queue.getJob(id)` and the state of the job, if it is there
  pub job_state : JobId → M E (Option JobState)
