-- ===== src/Deliveries.antt =====
-- src/deliveries: looking at a tenant's deliveries, and replaying one.
-- src/deliveries/infrastructure/persistence/prisma-deliveries.repository.ts,
-- src/deliveries/application/use-cases/get-delivery.use-case.ts and replay-delivery.use-case.ts
pub mod Replay
use webhook_engine.Base.{
  ℕ, ◌==◌, if◌then◌else◌, Bool, true, false, ◌&&◌, Option, none, some, M, ok, pure, throw,
  http_exception, ◌>>=◌, ◌>>◌,
}
use webhook_engine.Prisma.{Prisma}
use webhook_engine.Schema.{DeliveryStatus, EventStatus, WebhookEvent, Delivery, Db, is_success}
use webhook_engine.Schema.Table
use webhook_engine.Dispatcher.Repository.{has_id, set_event, create_outbox}

-- `data` of the reset
abbrev pub reset : ℕ → Delivery → Delivery
reset now d = record d {
  status = DeliveryStatus.pending;
  attempts = 0;
  last_attempt_at = none;
  next_attempt_at = some now;
  http_status_code = none;
  response_snippet = none;
  updated_at = now;
}

abbrev is_some {ℓ} : {A : Type ℓ} → Option A → Bool
is_some none = false
is_some (some _) = true

module _ (db : Prisma) where
  -- `where: { id, event: { tenantId } }`
  abbrev pub is_delivery_of : Db → ℕ → ℕ → Delivery → Bool
  is_delivery_of s id tenant_id d =
      has_id id d
      && is_some (
          db.find_first (λ (e : WebhookEvent). e.id == d.event_id && e.tenant_id == tenant_id)
            s.events)

  unfoldable pub find_delivery : ℕ → ℕ → M Db (Option Delivery)
  find_delivery id tenant_id s =
      (ok (db.find_first (is_delivery_of s id tenant_id) s.deliveries), s)

  -- The messages name the delivery's identifier in the source.
  abbrev found_or_404 : Option Delivery → M Db Delivery
  found_or_404 none = throw (http_exception 404 "Delivery with this ID not found")
  found_or_404 (some d) = pure d

  unfoldable pub get_delivery : ℕ → ℕ → M Db Delivery
  unfolding find_delivery
  get_delivery id tenant_id = find_delivery id tenant_id >>= found_or_404

module _ (db : Prisma) (now : ℕ) where
  -- `availableAt` and `attemptNumber` of the new outbox row are the schema's defaults.
  unfoldable pub reset_for_replay : ℕ → M Db Delivery
  unfolding set_event create_outbox
  reset_for_replay id = db.transaction (do
    updated ← Table.update db Table.delivery (has_id id) (reset now)
    _ ← set_event db now updated.event_id EventStatus.processing
    create_outbox db now id now 1
    pure updated)

  unfoldable pub replay_found : ℕ → Option Delivery → M Db Delivery
  unfolding reset_for_replay
  replay_found id none = throw (http_exception 404 "Delivery with this ID not found")
  replay_found id (some d) = if is_success d.status then pure d else reset_for_replay id

  unfoldable pub replay_delivery : ℕ → ℕ → M Db Delivery
  unfolding find_delivery replay_found
  replay_delivery id tenant_id = find_delivery db id tenant_id >>= replay_found id
