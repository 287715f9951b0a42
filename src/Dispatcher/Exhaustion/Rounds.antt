-- ===== src/Dispatcher/Exhaustion/Rounds.antt =====
-- A delivery that is attempted again and again comes to an end: `execute` of
-- src/dispatcher/application/services/delivery-executor.service.ts, run for one attempt number after
-- the other, as the outbox rows ask for.
use webhook_engine.Base.{
  eq_self, ℕ, zero, suc, ◌+◌, ◌-◌, ◌≤◌, ◌<◌, leb, not, ◌||◌, ◌≡◌, refl, sym, ap, subst, ◌∙◌, ◌⊎◌,
  inl, inr, Bool-cases, true, some, find?, find?-holds, Result, ok, err, M, pure, then_with, arith,
  ◌>>◌,
}
use webhook_engine.Prisma.{Prisma, IsLawful, reference, reference-IsLawful, lawful-eq}
use webhook_engine.Schema.{DeliveryStatus, success, dlq, Delivery, Db}
use webhook_engine.World.{World}
use webhook_engine.Dispatcher.Repository.{
  DispatchableDelivery, has_id, event_has_id, is_claimed_by, claimed,
}
use webhook_engine.Dispatcher.Retry.{is_retryable}
use webhook_engine.Dispatcher.Executor.{
  Services, DeliveryResult, request_of, as_request_error, failure_status, attempt, execute,
}
use webhook_engine.Dispatcher.Executor.Outcome.{Settles, attempt-Settles, status_after}
use webhook_engine.Dispatcher.Exhaustion.Related.{
  IsRelated, claimed_db, claimed_found, claim_waiting, claimed-IsRelated,
}
use webhook_engine.Dispatcher.Exhaustion.Attempts.{attempt-Related}

-- The delivery is at its end.
pub record IsFinished (id : ℕ) (s : Db) : Type 0 where
  pub row : Delivery
  pub has_row : find? (has_id id) s.deliveries ≡ some row
  pub finished : (row.status ≡ success) ⊎ (row.status ≡ dlq)

-- The delivery had `k` attempts, and waits for the next.
pub record IsWaiting (id endpoint_id event_id k : ℕ) (s : Db) : Type 0 where
  pub related : IsRelated id endpoint_id event_id s
  pub waits : is_claimed_by id (k + 1) related.row ≡ true

status_after-cases :
    {E : Type 0} (svc : Services E) (n : ℕ) (r : Result DeliveryResult)
    → (status_after svc n r ≡ success)
      ⊎ (status_after svc n r ≡ dlq)
      ⊎ ((status_after svc n r ≡ DeliveryStatus.failed) × (n < svc.retry_config.max_attempts))
status_after-cases svc n (ok response) = inl refl
status_after-cases svc n (err error) =
    elim (Bool-cases (
      leb svc.retry_config.max_attempts n
      || not (is_retryable (failure_status (as_request_error svc.client_message error))))) [
        | inl stop ↦ inr (inl (rw stop refl))
        | inr again ↦ inr (inr (rw again refl, ground arith))
      ]

waits_again :
    (id n : ℕ) (d : Delivery)
    → has_id id d ≡ true
    → d.status ≡ DeliveryStatus.failed
    → d.attempts ≡ n
    → is_claimed_by id (n + 1) d ≡ true
waits_again id n d here failed counted = rw (here, counted, failed, eq_self (n + 1)) refl

counted_by : (id n : ℕ) (d : Delivery) → is_claimed_by id n d ≡ true → d.attempts + 1 ≡ n
counted_by id n d h = ground arith

then_after :
    {S : Type 0} (k : M S (Unit {0})) (r : Result (Unit {0}) × S)
    → r.0 ≡ ok tt
    → then_with (λ _. k) r ≡ k r.1
then_after k (ok tt, s) h = refl
then_after k (err e, s) h = absurd cc

-- The executor runs for `m` attempt numbers, one after the other, from `n` on.
unfoldable pub attempts_from :
    {E : Type 0} → Services E → Prisma → DispatchableDelivery → ℕ → ℕ → M (World E) (Unit {0})
attempts_from svc db job n zero = pure tt
attempts_from svc db job n (suc m) = execute svc db job n >> attempts_from svc db job (n + 1) m

-- After `m` attempts, all of which returned, the delivery is at its end.
pub IsFinishedBy :
    {E : Type 0} → Services E → Prisma → DispatchableDelivery → ℕ → ℕ → World E → Type 0
IsFinishedBy svc db job n m w =
    ((attempts_from svc db job n m w).0 ≡ ok tt)
    × IsFinished job.delivery.id (attempts_from svc db job n m w).1.db

module _ {E : Type 0} (svc : Services E) (id endpoint_id event_id : ℕ) where
  -- What one attempt makes of a delivery that waits.
  Progress : ℕ → Result (Unit {0}) × World E → Type 0
  Progress k r =
      (r.0 ≡ ok tt)
      × (IsFinished id r.1.db
          ⊎ (IsWaiting id endpoint_id event_id (k + 1) r.1.db
              × (k + 1 < svc.retry_config.max_attempts)))

  settled-Progress :
      (k : ℕ) (before : Db) (d : Delivery) (now due : ℕ) (outcome : Result DeliveryResult)
      (r : Result (Unit {0}) × World E)
      → d.id ≡ id
      → d.attempts ≡ k + 1
      → Settles before d now (status_after svc d.attempts outcome) due r
      → IsRelated id endpoint_id event_id r.1.db
      → Progress k r
  unfolding Progress
  settled-Progress k before d now due outcome r same counted settled rel =
      let stores : find? (has_id id) r.1.db.deliveries ≡ some settled.row =
        subst (λ (n : ℕ). find? (has_id n) r.1.db.deliveries ≡ some settled.row) same
          settled.stores in
      let both : some rel.row ≡ some settled.row = sym rel.has_row ∙ stores in
      let row : rel.row ≡ settled.row = cc in
      (
        settled.returns,
        elim (status_after-cases svc d.attempts outcome) [
          | inl delivered ↦ inl (record {
            row = settled.row;
            has_row = stores;
            finished = inl (settled.has_status ∙ delivered);
          })
          | inr (inl stopped) ↦ inl (record {
            row = settled.row;
            has_row = stores;
            finished = inr (settled.has_status ∙ stopped);
          })
          | inr (inr (failed, few)) ↦
              let status : rel.row.status ≡ DeliveryStatus.failed =
                ap (λ (x : Delivery). x.status) row ∙ (settled.has_status ∙ failed) in
              let attempts : rel.row.attempts ≡ k + 1 =
                ap (λ (x : Delivery). x.attempts) row ∙ (settled.keeps_attempts ∙ counted) in
              inr (
                record {
                  related = rel;
                  waits =
                      waits_again id (k + 1) rel.row
                        (find?-holds (has_id id) r.1.db.deliveries rel.has_row) status attempts;
                },
                omega (arith, few, counted),
              )
        ],
      )

  -- One attempt at a delivery that waits.
  round-Progress :
      (job : DispatchableDelivery) (k : ℕ) (w : World E)
      → job.delivery.id ≡ id
      → IsWaiting id endpoint_id event_id k w.db
      → Progress k (execute svc reference job (k + 1) w)
  unfolding execute
  round-Progress job k w job_id waiting =
      let rel = waiting.related in
      let d = rel.row in
      let holds = find?-holds (has_id id) w.db.deliveries rel.has_row in
      let x : DispatchableDelivery = record {
        delivery = claimed w.now d;
        endpoint = rel.endpoint;
        event = rel.event;
        tenant = rel.tenant;
      } in
      let w1 : World E = record w { db = claimed_db w.now id k d.event_id w.db } in
      let rel1 = claimed-IsRelated w.now id k d.event_id w.db rel in
      let same : d.id ≡ id = ground arith in
      let counted : d.attempts + 1 ≡ k + 1 = counted_by id (k + 1) d waiting.waits in
      let ((r, elapsed), _) = svc.send (request_of svc w.now x) w.external in
      let found = claimed_found w.now id k w.db rel.has_row waiting.waits in
      let settled =
        attempt-Settles reference reference-IsLawful svc x rel1.event w1
          (subst (λ (n : ℕ). find? (has_id n) w1.db.deliveries ≡ some (claimed w.now d)) (sym same)
            found)
          (subst (λ (n : ℕ). find? (event_has_id n) w1.db.events ≡ some rel1.event)
            (sym rel.event_key) rel1.has_event) in
      rw (job_id, claim_waiting w.now id k w.db rel waiting.waits)
        (settled-Progress k w1.db (claimed w.now d) (w.now + elapsed) _ r
          (attempt svc reference (some x) w1) same counted settled
          (attempt-Related svc id endpoint_id event_id x w1 rel1))

module _ {E : Type 0} (svc : Services E) (job : DispatchableDelivery)
    (endpoint_id event_id : ℕ) where
  finishes_within :
      (j k : ℕ) (w : World E)
      → k < svc.retry_config.max_attempts
      → svc.retry_config.max_attempts ≤ k + j
      → IsWaiting job.delivery.id endpoint_id event_id k w.db
      → (m : ℕ) × (m ≤ j) × IsFinishedBy svc reference job (k + 1) m w
  unfolding IsFinishedBy attempts_from Progress
  finishes_within zero k w few enough waiting = absurd omega (arith, few, enough)
  finishes_within (suc j) k w few enough waiting =
      let id = job.delivery.id in
      let r = execute svc reference job (k + 1) w in
      let (returned, progress) = round-Progress svc id endpoint_id event_id job k w refl waiting in
      elim progress [
        | inl finished ↦ (1, omega arith, rw (then_after (pure tt) r returned) (refl, finished))
        | inr (again, fewer) ↦
            let (m, small, done') =
              finishes_within j (k + 1) r.1 fewer (omega (arith, enough)) again in
            (
              suc m,
              omega (arith, small),
              rw (then_after (attempts_from svc reference job (k + 1 + 1) m) r returned) done',
            )
      ]

-- A delivery that is stored with its endpoint, its event and its tenant, is PENDING or FAILED, and had
-- fewer attempts than the maximum comes to an end, whatever its receiver does: after some number of
-- further attempts, at most as many as are missing to the maximum, the executor has returned each time,
-- and the delivery is in SUCCESS or in DLQ.
pub attempts-Finish :
    {E : Type 0} (db : Prisma)
    → IsLawful db
    → (svc : Services E) (job : DispatchableDelivery) (endpoint_id event_id k : ℕ) (w : World E)
    → IsWaiting job.delivery.id endpoint_id event_id k w.db
    → k < svc.retry_config.max_attempts
    → (m : ℕ) × (m ≤ svc.retry_config.max_attempts - k) × IsFinishedBy svc db job (k + 1) m w
attempts-Finish db law svc job endpoint_id event_id k w waiting few = rw (lawful-eq db law) (
    finishes_within svc job endpoint_id event_id (svc.retry_config.max_attempts - k) k w few
      (omega arith) waiting)
