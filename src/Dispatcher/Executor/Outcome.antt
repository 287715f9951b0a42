-- ===== src/Dispatcher/Executor/Outcome.antt =====
-- What one attempt leaves behind: `execute` of
-- src/dispatcher/application/services/delivery-executor.service.ts after its claim.
use mathlib.Core.List.{append-nil}
use webhook_engine.Base.{
  ℕ, ◌+◌, leb, ◌≡◌, refl, sym, subst, ◌∙◌, not, ◌||◌, if◌then◌else◌, some, List, [], ◌∷◌, ◌++◌,
  Error, Result, ok, err, M, find?, patch, caught, then_with, arith, String, ◌>>◌, Bool-cases, inl,
  inr,
}
use webhook_engine.Prisma.{Prisma, IsLawful, reference, lawful-eq}
use webhook_engine.Schema.{DeliveryStatus, success, dlq, Delivery, DeliveryOutbox, WebhookEvent, Db}
use webhook_engine.World.{World, on_db, increment}
use webhook_engine.Dispatcher.Repository.{
  DispatchableDelivery, has_id, event_has_id, finish, reschedule, create_outbox, mark_success,
  mark_dead_letter, mark_failed_and_schedule, failed_with, with_outcome, outbox_row,
}
use webhook_engine.Dispatcher.Retry.{is_retryable, next_attempt_delay}
use webhook_engine.Dispatcher.Executor.{
  DeliveryResult, Services, request_of, send_request, complete, deliver, as_request_error,
  failure_status, failure_input, failure_snippet, success_snippet, gives_up, give_up_or_retry,
  handle_failure, attempt,
}
use webhook_engine.Invariant.Change.{KeepsKeys}

pub find?-patch :
    (id : ℕ) (f : Delivery → Delivery) (ds : List Delivery) {d : Delivery}
    → ((x : Delivery) → (f x).id ≡ x.id)
    → find? (has_id id) ds ≡ some d
    → find? (has_id id) (patch (has_id id) f ds) ≡ some (f d)
find?-patch id f [] same h = absurd cc
find?-patch id f (x ∷ ds) {d} same h = ground (arith, same x, find?-patch id f ds {d = d} same)

-- The row of an identifier, and the outbox, after a step.
record Leaves {A : Type 0} (r : Result A × Db) (a : A) (id : ℕ) (row : Delivery)
    (outbox : List DeliveryOutbox) : Type 0 where
  returns : r.0 ≡ ok a
  stores : find? (has_id id) r.1.deliveries ≡ some row
  queues : r.1.outbox ≡ outbox

finish-Leaves :
    (now id : ℕ) (f : Delivery → Delivery) (s : Db) {d : Delivery} {e : WebhookEvent}
    → KeepsKeys f
    → find? (has_id id) s.deliveries ≡ some d
    → find? (event_has_id d.event_id) s.events ≡ some e
    → Leaves (finish reference now id f s) tt id (f d) s.outbox
unfolding finish
finish-Leaves now id f s {d} {e} k found here =
    let here' : find? (event_has_id (f d).event_id) s.events ≡ some e =
      subst (λ (n : ℕ). find? (event_has_id n) s.events ≡ some e) (sym (k.event_id d)) here in
    rw (found, here')
      (record { returns = refl; stores = find?-patch id f s.deliveries k.id found; queues = refl })

reschedule-Leaves :
    (now id at attempt : ℕ) (f : Delivery → Delivery) (s : Db) {d : Delivery}
    → KeepsKeys f
    → find? (has_id id) s.deliveries ≡ some d
    → Leaves
        (reschedule reference now id f at attempt s)
        tt
        id
        (f d)
        (s.outbox ++ outbox_row now s.next_id id at attempt ∷ [])
unfolding reschedule create_outbox
reschedule-Leaves now id at attempt f s k found =
    rw found
      (record { returns = refl; stores = find?-patch id f s.deliveries k.id found; queues = refl })

-- The status that an attempt leads to.
abbrev pub status_after : {E : Type 0} → Services E → ℕ → Result DeliveryResult → DeliveryStatus
status_after svc attempts (ok response) = success
status_after svc attempts (err error) =
    if leb svc.retry_config.max_attempts attempts
      || not (is_retryable (failure_status (as_request_error svc.client_message error)))
    then dlq
    else DeliveryStatus.failed

-- When a failed delivery is due again.
abbrev pub due_after : {E : Type 0} → Services E → ℕ → ℕ → Result DeliveryResult → ℕ
due_after svc now attempts (ok response) = now
due_after svc now attempts (err error) =
    let e = as_request_error svc.client_message error in
    now
    + next_attempt_delay svc.reader now (failure_status e) e.retry_after attempts svc.retry_config
        svc.random

-- The outbox rows that an attempt adds: one for the next attempt of a delivery that failed.
abbrev pub rows_after : DeliveryStatus → DeliveryOutbox → List DeliveryOutbox
rows_after DeliveryStatus.failed row = row ∷ []
rows_after _ row = []

module _ {E : Type 0} where
  -- What an attempt at the delivery `d` that ends at the time `now` leaves in the world, with the
  -- status and the time of the next attempt given.
  pub record Settles (before : Db) (d : Delivery) (now : ℕ) (status : DeliveryStatus) (due : ℕ)
      (r : Result (Unit {0}) × World E) : Type 0 where
    pub returns : r.0 ≡ ok tt
    pub row : Delivery
    pub stores : find? (has_id d.id) r.1.db.deliveries ≡ some row
    pub has_status : row.status ≡ status
    pub keeps_attempts : row.attempts ≡ d.attempts
    pub queues :
        r.1.db.outbox
        ≡ before.outbox
          ++ rows_after status (outbox_row now before.next_id d.id due (d.attempts + 1))

  counted_Settles :
      (name : String) (m : M Db (Unit {0})) (w : World E) (d row : Delivery)
      (status : DeliveryStatus) (due : ℕ)
      → Leaves (m w.db) tt d.id row (
          w.db.outbox
          ++ rows_after status (outbox_row w.now w.db.next_id d.id due (d.attempts + 1)))
      → row.status ≡ status
      → row.attempts ≡ d.attempts
      → Settles w.db d w.now status due ((on_db m >> increment name) w)
  counted_Settles name m w d row status due l st at = rw l.returns (record {
    returns = refl;
    row = row;
    stores = l.stores;
    has_status = st;
    keeps_attempts = at;
    queues = l.queues;
  })

module _ {E : Type 0} (svc : Services E) (d : DispatchableDelivery) (event : WebhookEvent) where
  -- The delivery and its event are stored.
  abbrev IsStored : Db → Type 0
  IsStored s =
      (find? (has_id d.delivery.id) s.deliveries ≡ some d.delivery)
      × (find? (event_has_id d.delivery.event_id) s.events ≡ some event)

  complete-Settles :
      (w : World E) (response : DeliveryResult)
      → IsStored w.db
      → Settles w.db d.delivery w.now success w.now (complete svc reference d response w)
  unfolding complete mark_success
  complete-Settles w response (found, here) =
      let l =
        finish-Leaves w.now d.delivery.id
          (with_outcome w.now success response.status (success_snippet svc response)) w.db
          (record { id = λ x. refl; event_id = λ x. refl }) found here in
      counted_Settles "deliveries_success_total"
        (mark_success reference w.now d.delivery.id response.status (success_snippet svc response))
        w d.delivery _ success w.now
        (record {
          returns = l.returns;
          stores = l.stores;
          queues = l.queues ∙ sym (append-nil w.db.outbox);
        })
        refl refl

  give_up_or_retry-Settles :
      (w : World E) (error : Error)
      → IsStored w.db
      → Settles w.db d.delivery w.now
          (status_after svc d.delivery.attempts (err error))
          (due_after svc w.now d.delivery.attempts (err error))
          (handle_failure svc reference d error w)
  unfolding handle_failure give_up_or_retry gives_up mark_dead_letter mark_failed_and_schedule
  give_up_or_retry-Settles w error (found, here) =
      let id = d.delivery.id in
      let attempts = d.delivery.attempts in
      let e = as_request_error svc.client_message error in
      let status = failure_status e in
      let text' = failure_snippet svc e status in
      let due = due_after svc w.now attempts (err error) in
      elim (Bool-cases (leb svc.retry_config.max_attempts attempts || not (is_retryable status))) [
        | inl stop ↦
            let l =
              finish-Leaves w.now id (with_outcome w.now dlq status text') w.db
                (record { id = λ x. refl; event_id = λ x. refl }) found here in
            rw stop (
              counted_Settles "deliveries_dlq_total"
                (mark_dead_letter reference w.now id status text') w d.delivery
                (with_outcome w.now dlq status text' d.delivery) dlq due
                (record {
                  returns = l.returns;
                  stores = l.stores;
                  queues = l.queues ∙ sym (append-nil w.db.outbox);
                })
                refl refl)
        | inr again ↦
            let input = failure_input svc reference w.now d e status in
            let l =
              reschedule-Leaves w.now id due (attempts + 1) (failed_with w.now input) w.db
                (record { id = λ x. refl; event_id = λ x. refl }) found in
            rw again (
              counted_Settles "delivery_retries_scheduled_total"
                (mark_failed_and_schedule reference w.now input) w d.delivery
                (failed_with w.now input d.delivery) DeliveryStatus.failed due l refl refl)
      ]

  -- What follows the request, whatever its outcome.
  after_send-Settles :
      (r : Result DeliveryResult) (w : World E)
      → IsStored w.db
      → Settles w.db d.delivery w.now
          (status_after svc d.delivery.attempts r)
          (due_after svc w.now d.delivery.attempts r)
          (caught (handle_failure svc reference d) (then_with (complete svc reference d) (r, w)))
  after_send-Settles (ok response) w stored =
      let l = complete-Settles w response stored in
      rw l.returns (record {
        returns = refl;
        row = l.row;
        stores = l.stores;
        has_status = l.has_status;
        keeps_attempts = l.keeps_attempts;
        queues = l.queues;
      })
  after_send-Settles (err error) w stored = give_up_or_retry-Settles w error stored

-- An attempt at a stored delivery, whose event is stored, returns: the delivery is not left in
-- PROCESSING, whatever the receiver does. If the request succeeded, the delivery is in SUCCESS. If it
-- failed, the delivery is in DLQ when its attempts have reached the maximum or the failure is not to
-- be retried, and there is no further attempt; else it is in FAILED, and the outbox has one row more,
-- for the next attempt after the delay of the retry policy.
pub attempt-Settles :
    {E : Type 0} (db : Prisma)
    → IsLawful db
    → (svc : Services E) (d : DispatchableDelivery) (event : WebhookEvent) (w : World E)
    → find? (has_id d.delivery.id) w.db.deliveries ≡ some d.delivery
    → find? (event_has_id d.delivery.event_id) w.db.events ≡ some event
    → let ((r, elapsed), _) = svc.send (request_of svc w.now d) w.external in
      let now = w.now + elapsed in
      Settles w.db d.delivery now
        (status_after svc d.delivery.attempts r)
        (due_after svc now d.delivery.attempts r)
        (attempt svc db (some d) w)
unfolding attempt deliver send_request
attempt-Settles db law svc d event w found here =
    let request = request_of svc w.now d in
    let ((r, elapsed), e) = svc.send request w.external in
    rw (lawful-eq db law) (
      after_send-Settles svc d event r
        (record w { now = w.now + elapsed; sent = request ∷ w.sent; external = e }) (found, here))
