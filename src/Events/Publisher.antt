-- ===== src/Events/Publisher.antt =====
-- src/events/infrastructure/queue/delivery-outbox-publisher.service.ts and the caller of it in
-- delivery-outbox-scheduler.service.ts.
pub mod Marked
pub mod InOrder
pub mod Rounds
use webhook_engine.Base.{
  ℕ, ◌+◌, ◌≤◌, leb, ltb, if◌then◌else◌, Bool, true, false, not, ◌&&◌, Option, none, some, List, [],
  ◌∷◌, take, Text, M, Error, ok, err, pure, throw, try_catch, Result, final, ◌>>=◌, ◌>>◌,
}
use webhook_engine.Prisma.{Prisma}
use webhook_engine.Schema.{DeliveryOutbox, Db}
use webhook_engine.Schema.Table
use webhook_engine.World.{World, on_db, on_external, clock}
use webhook_engine.Events.Queue.{Queue, Job, job_id}
use webhook_engine.Events.Maintenance.{outbox_has_id, recover_and_cleanup}

-- The service's own fields, and the world.
pub record Publisher (E : Type 0) : Type 0 where
  pub publishing : Bool
  pub last_maintenance_at : ℕ
  pub world : World E

-- What the service is constructed with. `order_by_created_at` is the database's sorting.
pub record PublisherServices (E : Type 0) : Type 0 where
  pub queue : Queue E
  pub order_by_created_at : List DeliveryOutbox → List DeliveryOutbox
  pub event_retention_days : ℕ
  pub stale_delivery_age : ℕ
  -- `(error instanceof Error ? error.message : String(error)).slice(0, 500)`
  pub error_text : Error → Text

abbrev pub is_unpublished : Option ℕ → Bool
is_unpublished none = true
is_unpublished (some _) = false

-- `publishedAt: null, availableAt: { lte: new Date() }`
abbrev pub is_due : ℕ → DeliveryOutbox → Bool
is_due now row = is_unpublished row.published_at && leb row.available_at now

abbrev pub job_of : DeliveryOutbox → Job
job_of row = record {
  id = job_id row;
  delivery_id = row.delivery_id;
  expected_attempt = row.attempt_number;
}

abbrev pub published : ℕ → DeliveryOutbox → DeliveryOutbox
published now row = record row { published_at = some now; last_error = none }

abbrev pub not_published : Text → DeliveryOutbox → DeliveryOutbox
not_published text row = record row { attempts = row.attempts + 1; last_error = some text }

module _ {E : Type 0} where
  abbrev with_world : {A : Type 0} → Publisher E → Result A × World E → Result A × Publisher E
  with_world p (r, w) = (r, record p { world = w })

  abbrev pub on_world : {A : Type 0} → M (World E) A → M (Publisher E) A
  on_world m p = with_world p (m p.world)

  -- `try { m } finally { this.publishing = false; }`
  abbrev pub finally_idle : Result (Unit {0}) × Publisher E → Result (Unit {0}) × Publisher E
  finally_idle (r, p) = (r, record p { publishing = false })

  module _ (db : Prisma) (svc : PublisherServices E) where
    -- the body of `try` in the loop
    unfoldable pub publish_row : DeliveryOutbox → M (World E) (Unit {0})
    publish_row row = do
      on_external (svc.queue.add (job_of row))
      now ← clock
      _ ← on_db (Table.update db Table.delivery_outbox (outbox_has_id row.id) (published now))
      pure tt

    -- the body of `catch` in the loop, which throws the error again
    unfoldable pub record_failure : DeliveryOutbox → Error → M (World E) (Unit {0})
    record_failure row error = do
      _ ← on_db (
          Table.update db Table.delivery_outbox (outbox_has_id row.id)
            (not_published (svc.error_text error)))
      throw error

    unfoldable pub publish_rows : List DeliveryOutbox → M (World E) (Unit {0})
    unfolding publish_row record_failure
    publish_rows [] = pure tt
    publish_rows (row ∷ rows) = do
      try_catch (publish_row row) (record_failure row)
      publish_rows rows

    unfoldable pub find_due : ℕ → M Db (List DeliveryOutbox)
    find_due now s =
        (ok (take 100 (svc.order_by_created_at (db.find_many (is_due now) s.outbox))), s)

    unfoldable pub publish_due : M (World E) (Unit {0})
    unfolding publish_rows find_due
    publish_due = do now ← clock; jobs ← on_db (find_due now); publish_rows jobs

    abbrev stamp_maintenance : M (Publisher E) (Unit {0})
    stamp_maintenance p = (ok tt, record p { last_maintenance_at = p.world.now })

    unfoldable pub maintain : M (Publisher E) (Unit {0})
    maintain p =
        if leb (p.last_maintenance_at + 60000) p.world.now
        then (do
          on_world
              (recover_and_cleanup db svc.queue svc.event_retention_days svc.stale_delivery_age)
          stamp_maintenance)
            p
        else (ok tt, p)

    -- the body of the outer `try`
    unfoldable pub maintain_and_publish : M (Publisher E) (Unit {0})
    unfolding maintain publish_due
    maintain_and_publish = do maintain; on_world publish_due

    unfoldable pub publish_pending : M (Publisher E) (Unit {0})
    unfolding maintain_and_publish
    publish_pending p =
        if p.publishing
        then (ok tt, p)
        else finally_idle (maintain_and_publish (record p { publishing = true }))
