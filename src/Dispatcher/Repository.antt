-- ===== src/Dispatcher/Repository.antt =====
-- src/dispatcher/infrastructure/persistence/prisma-dispatch-deliveries.repository.ts and its port,
-- src/dispatcher/application/ports/dispatch-deliveries.repository.ts. `now` is what `new Date()`
-- gives in the call; `updatedAt` is set to it by the client.
use webhook_engine.Base.{
  ℕ, ◌+◌, ◌==◌, if◌then◌else◌, Bool, true, false, ◌&&◌, Option, none, some, [], ◌∷◌, map, Text, M,
  ok, pure, ◌>>=◌,
}
use webhook_engine.Prisma.{Prisma}
use webhook_engine.Schema.{
  DeliveryStatus, success, dlq, cancelled, EventStatus, Tenant, Endpoint, WebhookEvent, Delivery,
  DeliveryOutbox, Db,
}
use webhook_engine.Schema.Table
use webhook_engine.Dispatcher.Policy.{calculate_event_status}

pub record DispatchableDelivery : Type 0 where
  pub delivery : Delivery
  pub endpoint : Endpoint
  pub event : WebhookEvent
  pub tenant : Tenant

pub record DeliveryFailureInput : Type 0 where
  pub id : ℕ
  pub status_code : ℕ
  pub response_snippet : Text
  pub next_attempt_at : ℕ
  pub next_attempt_number : ℕ

abbrev pub has_id : ℕ → Delivery → Bool
has_id id d = d.id == id

abbrev pub event_has_id : ℕ → WebhookEvent → Bool
event_has_id id e = e.id == id

-- `status: { in: ['PENDING', 'FAILED'] }`
abbrev pub is_claimable : DeliveryStatus → Bool
is_claimable DeliveryStatus.pending = true
is_claimable DeliveryStatus.failed = true
is_claimable _ = false

-- `data: { status }` on an event
abbrev pub set_event_status : ℕ → EventStatus → WebhookEvent → WebhookEvent
set_event_status now status e = record e { status = status; updated_at = now }

-- The rows that a claim changes, and the change.
abbrev pub is_claimed_by : ℕ → ℕ → Delivery → Bool
is_claimed_by id expected_attempt d =
    has_id id d && (d.attempts + 1 == expected_attempt) && is_claimable d.status

abbrev pub claimed : ℕ → Delivery → Delivery
claimed now d = record d {
  status = DeliveryStatus.processing;
  attempts = d.attempts + 1;
  last_attempt_at = some now;
  next_attempt_at = none;
  updated_at = now;
}

abbrev pub with_outcome : ℕ → DeliveryStatus → ℕ → Text → Delivery → Delivery
with_outcome now status status_code response_snippet d = record d {
  status = status;
  http_status_code = some status_code;
  response_snippet = some response_snippet;
  next_attempt_at = none;
  updated_at = now;
}

abbrev pub with_reason : ℕ → Text → Delivery → Delivery
with_reason now reason d = record d {
  status = cancelled;
  response_snippet = some reason;
  next_attempt_at = none;
  updated_at = now;
}

abbrev pub outbox_row : ℕ → ℕ → ℕ → ℕ → ℕ → DeliveryOutbox
outbox_row now id delivery_id available_at attempt_number = record {
  id = id;
  delivery_id = delivery_id;
  available_at = available_at;
  attempt_number = attempt_number;
  published_at = none;
  attempts = 0;
  last_error = none;
  created_at = now;
}

abbrev pub failed_with : ℕ → DeliveryFailureInput → Delivery → Delivery
failed_with now input d = record d {
  status = DeliveryStatus.failed;
  http_status_code = some input.status_code;
  response_snippet = some input.response_snippet;
  next_attempt_at = some input.next_attempt_at;
  updated_at = now;
}

abbrev pub rate_limited_until : ℕ → ℕ → Delivery → Delivery
rate_limited_until now next_attempt_at d = record d {
  status = DeliveryStatus.pending;
  next_attempt_at = some next_attempt_at;
  updated_at = now;
}

module _ (db : Prisma) where
  -- `include: { endpoint: true, event: { include: { tenant: true } } }`
  abbrev pub with_relations : Db → Option Delivery → Option DispatchableDelivery
  with_relations s none = none
  with_relations s (some d) =
      elim (db.find_first (λ (e : Endpoint). e.id == d.endpoint_id) s.endpoints) [
        | none ↦ none
        | some endpoint ↦ elim (db.find_first (event_has_id d.event_id) s.events) [
          | none ↦ none
          | some event ↦ elim (db.find_first (λ (t : Tenant). t.id == event.tenant_id) s.tenants) [
            | none ↦ none
            | some tenant ↦
                some (record { delivery = d; endpoint = endpoint; event = event; tenant = tenant })
          ]
        ]
      ]

  unfoldable pub find_by_id : ℕ → M Db (Option DispatchableDelivery)
  find_by_id id s = (ok (with_relations s (db.find_first (has_id id) s.deliveries)), s)

module _ (db : Prisma) (now : ℕ) where
  unfoldable pub set_event : ℕ → EventStatus → M Db WebhookEvent
  set_event event_id status =
      Table.update db Table.webhook_event (event_has_id event_id) (set_event_status now status)

  -- `if (delivery) { … }`, and the claim's result
  unfoldable pub start_event : Option DispatchableDelivery → M Db (Option DispatchableDelivery)
  unfolding set_event
  start_event none = pure none
  start_event (some d) = do _ ← set_event d.delivery.event_id EventStatus.processing; pure (some d)

  -- `if (claimed.count === 0) return null;` and what follows it
  unfoldable pub after_claim : ℕ → ℕ → M Db (Option DispatchableDelivery)
  unfolding find_by_id start_event
  after_claim id changed = if changed == 0 then pure none else find_by_id db id >>= start_event

  unfoldable pub claim_for_processing : ℕ → ℕ → M Db (Option DispatchableDelivery)
  unfolding after_claim
  claim_for_processing id expected_attempt = db.transaction (
      Table.update_many db Table.delivery (is_claimed_by id expected_attempt) (claimed now)
      >>= after_claim id)

  -- The statuses of an event's deliveries decide its own.
  unfoldable pub refresh_event_status : ℕ → M Db (Unit {0})
  unfolding set_event
  refresh_event_status event_id = do
    deliveries ← Table.find_many db Table.delivery (λ d. d.event_id == event_id)
    _ ← set_event event_id (calculate_event_status (map (λ (d : Delivery). d.status) deliveries))
    pure tt

  -- `update` of one delivery, then `refreshEventStatus` of its event, in one transaction
  unfoldable pub finish : ℕ → (Delivery → Delivery) → M Db (Unit {0})
  unfolding refresh_event_status
  finish id change =
      db.transaction
        (do d ← Table.update db Table.delivery (has_id id) change; refresh_event_status d.event_id)

  unfoldable pub mark_success : ℕ → ℕ → Text → M Db (Unit {0})
  unfolding finish
  mark_success id status_code response_snippet =
      finish id (with_outcome now success status_code response_snippet)

  unfoldable pub mark_dead_letter : ℕ → ℕ → Text → M Db (Unit {0})
  unfolding finish
  mark_dead_letter id status_code response_snippet =
      finish id (with_outcome now dlq status_code response_snippet)

  unfoldable pub mark_cancelled : ℕ → Text → M Db (Unit {0})
  unfolding finish
  mark_cancelled id reason = finish id (with_reason now reason)

  -- `tx.deliveryOutbox.create`
  unfoldable pub create_outbox : ℕ → ℕ → ℕ → M Db (Unit {0})
  create_outbox delivery_id available_at attempt_number = do
    id ← Table.fresh_id
    Table.create_many db Table.delivery_outbox
        (outbox_row now id delivery_id available_at attempt_number ∷ [])

  -- `update` of one delivery, and an outbox row for its next attempt, in one transaction
  unfoldable pub reschedule : ℕ → (Delivery → Delivery) → ℕ → ℕ → M Db (Unit {0})
  unfolding create_outbox
  reschedule id change next_attempt_at attempt_number = db.transaction (do
    _ ← Table.update db Table.delivery (has_id id) change
    create_outbox id next_attempt_at attempt_number)

  unfoldable pub mark_failed_and_schedule : DeliveryFailureInput → M Db (Unit {0})
  unfolding reschedule
  mark_failed_and_schedule input =
      reschedule input.id (failed_with now input) input.next_attempt_at input.next_attempt_number

  unfoldable pub mark_rate_limited_and_schedule : ℕ → ℕ → ℕ → M Db (Unit {0})
  unfolding reschedule
  mark_rate_limited_and_schedule id next_attempt_at attempt_number =
      reschedule id (rate_limited_until now next_attempt_at) next_attempt_at attempt_number
