-- ===== src/Invariant/Steps.antt =====
-- The database as a state machine: its steps are the transactions that the use cases run, with any
-- arguments, in any order; the deletion of old events is not among them. A replay reads a delivery first
-- and resets it in a transaction of its own, which is the step here: the delivery may have changed
-- between the two. Nor does a transaction that reschedules a delivery test its status:
-- `markFailedAndSchedule` and `markRateLimitedAndSchedule` of
-- src/dispatcher/infrastructure/persistence/prisma-dispatch-deliveries.repository.ts.
use webhook_engine.Base.{◌+◌, List, ℕ, ◌≡◌, true, false, some, find?, Text, final, ◌⊎◌}
use webhook_engine.Prisma.{Prisma}
use webhook_engine.Schema.{Delivery, Db, Endpoint, EndpointSubscription, Tenant}
use webhook_engine.Dispatcher.Policy.{is_unfinished}
use webhook_engine.Dispatcher.Repository.{
  has_id, DeliveryFailureInput, claim_for_processing, mark_success, mark_dead_letter,
  mark_cancelled, mark_failed_and_schedule, mark_rate_limited_and_schedule,
}
use webhook_engine.Events.Ingest.{IngestEventCommand, create_for_tenant}
use webhook_engine.Events.Maintenance.{recover_stale_delivery}
use webhook_engine.Deliveries.{reset_for_replay}

-- The delivery of an identifier, if there is one, is not finished.
abbrev pub IsUnfinished : ℕ → Db → Type 0
IsUnfinished id s =
    (d : Delivery) → find? (has_id id) s.deliveries ≡ some d → is_unfinished d.status ≡ true

pub data Step (db : Prisma) (s : Db) : Db → Type 0 where
  ingest :
      (now : ℕ) (input : IngestEventCommand) → Step db s (final (create_for_tenant db now input) s)
  claim :
      (now id expected_attempt : ℕ)
      → Step db s (final (claim_for_processing db now id expected_attempt) s)
  succeed :
      (now id status_code : ℕ) (response_snippet : Text)
      → Step db s (final (mark_success db now id status_code response_snippet) s)
  dead_letter :
      (now id status_code : ℕ) (response_snippet : Text)
      → Step db s (final (mark_dead_letter db now id status_code response_snippet) s)
  cancel : (now id : ℕ) (reason : Text) → Step db s (final (mark_cancelled db now id reason) s)
  retry :
      (now : ℕ) (input : DeliveryFailureInput)
      → Step db s (final (mark_failed_and_schedule db now input) s)
  rate_limit :
      (now id next_attempt_at attempt_number : ℕ)
      → Step db s
          (final (mark_rate_limited_and_schedule db now id next_attempt_at attempt_number) s)
  reset : (now id : ℕ) → Step db s (final (reset_for_replay db now id) s)
  recover :
      (now stale_delivery_age : ℕ) (d : Delivery)
      → Step db s (final (recover_stale_delivery db now stale_delivery_age d) s)
  -- the use cases of endpoints and tenants that leave events and deliveries alone
  configure :
      (tenants : List Tenant) (endpoints : List Endpoint)
      (subscriptions : List EndpointSubscription) (new_ids : ℕ)
      → Step db s (record s {
        tenants = tenants;
        endpoints = endpoints;
        subscriptions = subscriptions;
        next_id = s.next_id + new_ids;
      })

-- What any number of steps reaches.
pub data Reach (db : Prisma) (s : Db) : Db → Type 0 where
  start : Reach db s s
  then : {t u : Db} → Reach db s t → Step db t u → Reach db s u

-- The step reschedules a delivery that is finished.
abbrev pub IsLate : {db : Prisma} {s t : Db} → Step db s t → Type 0
IsLate {s = s} (retry now input) =
    (d : Delivery) × (find? (has_id input.id) s.deliveries ≡ some d)
    × (is_unfinished d.status ≡ false)
IsLate {s = s} (rate_limit now id at attempt) =
    (d : Delivery) × (find? (has_id id) s.deliveries ≡ some d) × (is_unfinished d.status ≡ false)
IsLate step = ⊥

-- Some step on the way reschedules a delivery that is finished.
abbrev pub HasLate : {db : Prisma} {s t : Db} → Reach db s t → Type 0
HasLate start = ⊥
HasLate (then r step) = HasLate r ⊎ IsLate step
