-- ===== src/Events/Maintenance.antt =====
-- src/events/infrastructure/queue/delivery-maintenance.service.ts. The deletion of an event takes its
-- deliveries and their outbox rows along, as prisma/schema.prisma says (`onDelete: Cascade`).
use webhook_engine.Base.{
  ℕ, ◌+◌, ◌*◌, ◌==◌, ltb, if◌then◌else◌, Bool, true, false, ◌&&◌, Option, none, some, List, [], ◌∷◌,
  any, take, Text, units, M, ok, pure, ◌>>=◌, ◌>>◌,
}
use webhook_engine.Prisma.{Prisma}
use webhook_engine.Schema.{
  DeliveryStatus, EventStatus, done, Endpoint, WebhookEvent, Delivery, DeliveryOutbox, Db,
  is_pending, is_processing,
}
use webhook_engine.Schema.Table
use webhook_engine.World.{World, on_db, on_external, clock}
use webhook_engine.Dispatcher.Repository.{has_id, create_outbox}
use webhook_engine.Events.Queue.{Queue, legacy, job_id, JobState, failed}

-- `{ lt: cutoff }` on a column that may be null, where cutoff = now - age
abbrev pub is_before : ℕ → ℕ → Option ℕ → Bool
is_before now age none = false
is_before now age (some time) = ltb (time + age) now

abbrev pub day : ℕ
day = 24 * 60 * 60 * 1000

-- `status: { in: ['DONE', 'FAILED'] }`
abbrev pub is_closed : EventStatus → Bool
is_closed done = true
is_closed EventStatus.failed = true
is_closed _ = false

abbrev pub is_old_event : ℕ → ℕ → WebhookEvent → Bool
is_old_event now retention_days e =
    is_closed e.status && ltb (e.updated_at + retention_days * day) now

-- A row that goes with a deleted row of another table.
abbrev pub belongs_to_deleted_event : List WebhookEvent → (WebhookEvent → Bool) → Delivery → Bool
belongs_to_deleted_event events p d = any (λ e. e.id == d.event_id && p e) events

abbrev pub belongs_to_deleted_delivery : List Delivery → (Delivery → Bool) → DeliveryOutbox → Bool
belongs_to_deleted_delivery deliveries p row = any (λ d. d.id == row.delivery_id && p d) deliveries

abbrev pub is_stale : ℕ → ℕ → Delivery → Bool
is_stale now stale_delivery_age d =
    is_processing d.status && is_before now stale_delivery_age d.last_attempt_at

-- The rows that the claim of `recoverStaleDeliveries` changes, and the change.
abbrev pub is_stale_with_id : ℕ → ℕ → ℕ → Delivery → Bool
is_stale_with_id now stale_delivery_age id d = has_id id d && is_stale now stale_delivery_age d

abbrev pub recovered : ℕ → Delivery → Delivery
recovered now d = record d {
  status = DeliveryStatus.failed;
  next_attempt_at = some now;
  updated_at = now;
}

abbrev without_previous_secret : ℕ → Endpoint → Endpoint
without_previous_secret now e = record e {
  previous_secret_key = none;
  previous_secret_expires_at = none;
  updated_at = now;
}

module _ (db : Prisma) (now : ℕ) where
  unfoldable pub cleanup_expired_endpoint_secrets : M Db ℕ
  cleanup_expired_endpoint_secrets =
      Table.update_many db Table.endpoint
        (λ (e : Endpoint). is_before now 0 e.previous_secret_expires_at)
        (without_previous_secret now)

  unfoldable pub cleanup_published_outbox_rows : M Db (Unit {0})
  cleanup_published_outbox_rows =
      Table.delete_many db Table.delivery_outbox (λ row. is_before now (7 * day) row.published_at)

  -- `webhookEvent.deleteMany`, with the rows that go along
  unfoldable pub delete_events : (WebhookEvent → Bool) → M Db (Unit {0})
  delete_events p s =
      let gone = belongs_to_deleted_event s.events p in
      (do
        Table.delete_many db Table.delivery_outbox (belongs_to_deleted_delivery s.deliveries gone)
        Table.delete_many db Table.delivery gone
        Table.delete_many db Table.webhook_event p)
        s

  unfoldable pub cleanup_old_events : ℕ → M Db (Unit {0})
  unfolding delete_events
  cleanup_old_events retention_days =
      if retention_days == 0 then pure tt else delete_events (is_old_event now retention_days)

  -- `if (claimed.count) { … }`
  unfoldable pub schedule_recovered : Delivery → ℕ → M Db (Unit {0})
  unfolding create_outbox
  schedule_recovered d changed =
      if changed == 0 then pure tt else create_outbox db now d.id now (d.attempts + 1)

  unfoldable pub recover_stale_delivery : ℕ → Delivery → M Db (Unit {0})
  unfolding schedule_recovered
  recover_stale_delivery stale_delivery_age d = db.transaction (
      Table.update_many db Table.delivery (is_stale_with_id now stale_delivery_age d.id)
        (recovered now)
      >>= schedule_recovered d)

  unfoldable pub recover_each : ℕ → List Delivery → M Db (Unit {0})
  unfolding recover_stale_delivery
  recover_each stale_delivery_age [] = pure tt
  recover_each stale_delivery_age (d ∷ ds) = do
    recover_stale_delivery stale_delivery_age d
    recover_each stale_delivery_age ds

  unfoldable pub recover_stale_deliveries : ℕ → M Db (Unit {0})
  unfolding recover_each
  recover_stale_deliveries stale_delivery_age = do
    stale ← Table.find_many db Table.delivery (is_stale now stale_delivery_age)
    recover_each stale_delivery_age (take 100 stale)

abbrev is_published : Option ℕ → Bool
is_published none = false
is_published (some _) = true

-- `publishedAt: { not: null }, delivery: { status: 'PENDING' }`
abbrev pub is_published_pending : List Delivery → DeliveryOutbox → Bool
is_published_pending deliveries row =
    is_published row.published_at
    && any (λ d. d.id == row.delivery_id && is_pending d.status) deliveries

-- `currentJob ?? legacyJob`
abbrev pub or_job : Option JobState → Option JobState → Option JobState
or_job none other = other
or_job (some state) other = some state

-- `state !== 'failed' && state !== 'missing'`: there is a job that has not failed
abbrev pub is_alive : Option JobState → Bool
is_alive none = false
is_alive (some failed) = false
is_alive (some _) = true

-- `Recovered stranded ${state} queue job`
abbrev stranded_text : Option JobState → Text
stranded_text none = units "Recovered stranded missing queue job"
stranded_text (some _) = units "Recovered stranded failed queue job"

abbrev pub republish : Option JobState → DeliveryOutbox → DeliveryOutbox
republish state row = record row {
  published_at = none;
  attempts = row.attempts + 1;
  last_error = some (stranded_text state);
}

abbrev pub outbox_has_id : ℕ → DeliveryOutbox → Bool
outbox_has_id id row = row.id == id

module _ {E : Type 0} (db : Prisma) (queue : Queue E) where
  unfoldable pub unpublish_unless_alive : DeliveryOutbox → Option JobState → M (World E) (Unit {0})
  unpublish_unless_alive row state = if is_alive state then pure tt else (do
    _ ← on_db (Table.update db Table.delivery_outbox (outbox_has_id row.id) (republish state))
    pure tt)

  unfoldable pub recover_stranded_row : DeliveryOutbox → M (World E) (Unit {0})
  unfolding unpublish_unless_alive
  recover_stranded_row row = do
    current_job ← on_external (queue.job_state (job_id row))
    legacy_job ← on_external (queue.job_state (legacy row.id))
    unpublish_unless_alive row (or_job current_job legacy_job)

  unfoldable pub recover_stranded_rows : List DeliveryOutbox → M (World E) (Unit {0})
  unfolding recover_stranded_row
  recover_stranded_rows [] = pure tt
  recover_stranded_rows (row ∷ rows) = do recover_stranded_row row; recover_stranded_rows rows

  unfoldable pub find_published_pending : M Db (List DeliveryOutbox)
  find_published_pending s = (ok (db.find_many (is_published_pending s.deliveries) s.outbox), s)

  unfoldable pub recover_stranded_published_outbox : M (World E) (Unit {0})
  unfolding recover_stranded_rows find_published_pending
  recover_stranded_published_outbox = do
    published ← on_db find_published_pending
    recover_stranded_rows (take 100 published)

  -- `recoverAndCleanup`, with the settings `eventRetentionDays` and `staleDeliveryAge`
  unfoldable pub recover_and_cleanup : ℕ → ℕ → M (World E) (Unit {0})
  unfolding cleanup_expired_endpoint_secrets cleanup_published_outbox_rows cleanup_old_events
      recover_stale_deliveries recover_stranded_published_outbox
  recover_and_cleanup event_retention_days stale_delivery_age = do
    now ← clock
    _ ← on_db (cleanup_expired_endpoint_secrets db now)
    on_db (cleanup_published_outbox_rows db now)
    on_db (cleanup_old_events db now event_retention_days)
    on_db (recover_stale_deliveries db now stale_delivery_age)
    recover_stranded_published_outbox
