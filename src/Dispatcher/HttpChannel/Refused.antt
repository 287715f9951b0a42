-- ===== src/Dispatcher/HttpChannel/Refused.antt =====
-- An attempt at an endpoint whose URL is refused: the channel of
-- src/dispatcher/infrastructure/http/http-delivery-channel.adapter.ts under `execute` of
-- src/dispatcher/application/services/delivery-executor.service.ts.
use mathlib.Core.List.{append-nil}
use webhook_engine.Base.{
  ◌++◌, List, ℕ, ◌+◌, Bool-cases, inl, inr, ◌≡◌, refl, some, String, find?, Error, http_exception,
  Result, ok, err, arith, M, final, then_with-keeps, ◌>>◌, subst, ◌∙◌, ap,
}
use webhook_engine.Prisma.{Prisma, IsLawful}
use webhook_engine.Schema.{Db, DeliveryStatus, Delivery, DeliveryOutbox, dlq, WebhookEvent}
use webhook_engine.World.{World, Request, on_db, increment}
use webhook_engine.Security.SafeUrl.{assert_safe_webhook_url}
use webhook_engine.Dispatcher.Repository.{
  DispatchableDelivery, has_id, event_has_id, mark_dead_letter, mark_failed_and_schedule,
}
use webhook_engine.Dispatcher.Retry.{is_retryable}
use webhook_engine.Dispatcher.Executor.{
  DeliveryResult, Services, request_of, send_request, attempt, deliver, handle_failure,
  give_up_or_retry, gives_up, as_request_error, failure_status, failure_input, failure_snippet,
}
use webhook_engine.Dispatcher.Executor.Outcome.{
  Settles, rows_after, attempt-Settles, status_after, due_after,
}
use webhook_engine.Dispatcher.HttpChannel.{HttpChannel, send, post_if_safe, with_http}

module _ {E : Type 0} where
  -- A step on the database and a count leave the state outside alone.
  counted_external :
      (name : String) (m : M Db (Unit {0})) (w : World E)
      → (final (on_db m >> increment name) w).external ≡ w.external
  counted_external name m w =
      then_with-keeps (λ (v : World E). v.external ≡ w.external) (λ _. increment name) (on_db m w)
        refl (λ _ s _ h. h)

  handle_failure_external :
      (svc : Services E) (db : Prisma) (d : DispatchableDelivery) (error : Error) (w : World E)
      → (final (handle_failure svc db d error) w).external ≡ w.external
  unfolding handle_failure give_up_or_retry
  handle_failure_external svc db d error w =
      let e = as_request_error svc.client_message error in
      elim (Bool-cases (gives_up svc d.delivery.attempts (failure_status e))) [
        | inl stop ↦ rw stop (
            counted_external "deliveries_dlq_total"
              (mark_dead_letter db w.now d.delivery.id (failure_status e)
                (failure_snippet svc e (failure_status e)))
              w)
        | inr again ↦ rw again (
            counted_external "delivery_retries_scheduled_total"
              (mark_failed_and_schedule db w.now
                (failure_input svc db w.now d e (failure_status e)))
              w)
      ]

no_rows :
    (rows : List DeliveryOutbox) (row : DeliveryOutbox) {status : DeliveryStatus}
    → status ≡ dlq
    → rows ++ rows_after status row ≡ rows
no_rows rows row e = ap (λ (s : DeliveryStatus). rows ++ rows_after s row) e ∙ append-nil rows

module _ {E : Type 0} (channel : HttpChannel E) where
  send-refused :
      (request : Request) (e : E) {error : Error}
      → assert_safe_webhook_url (channel.network e) channel.allow_local_urls request.url ≡ err error
      → send channel request e ≡ ((err error, channel.resolving request.url e), e)
  unfolding send post_if_safe
  send-refused request e refused = rw refused refl

  status_after-refused :
      (svc : Services E) (attempts : ℕ) (message : String)
      → status_after svc attempts (err (http_exception 400 message)) ≡ dlq
  unfolding failure_status is_retryable
  status_after-refused svc attempts message = ground arith

  attempt_external :
      (db : Prisma) (svc : Services E) (d : DispatchableDelivery) (w : World E) {error : Error}
      {waited : ℕ}
      → svc.send (request_of svc w.now d) w.external ≡ ((err error, waited), w.external)
      → (final (attempt svc db (some d)) w).external ≡ w.external
  unfolding attempt deliver send_request
  attempt_external db svc d w {error} {waited} refused =
      rw (final, refused) (handle_failure_external svc db d error _)

  send-refused_attempt :
      (svc : Services E) (now : ℕ) (d : DispatchableDelivery) (e : E) {error : Error}
      → assert_safe_webhook_url (channel.network e) channel.allow_local_urls d.endpoint.url
        ≡ err error
      → send channel (request_of svc now d) e ≡ ((err error, channel.resolving d.endpoint.url e), e)
  unfolding request_of
  send-refused_attempt svc now d e {error} refused =
      send-refused (request_of svc now d) e {error = error} refused

  attempt-Settles-refused :
      (db : Prisma) (svc : Services E) (d : DispatchableDelivery) (event : WebhookEvent)
      (w : World E) {r : Result DeliveryResult} {waited : ℕ} {e : E}
      → IsLawful db
      → svc.send (request_of svc w.now d) w.external ≡ ((r, waited), e)
      → find? (has_id d.delivery.id) w.db.deliveries ≡ some d.delivery
      → find? (event_has_id d.delivery.event_id) w.db.events ≡ some event
      → Settles w.db d.delivery
          (w.now + waited)
          (status_after svc d.delivery.attempts r)
          (due_after svc (w.now + waited) d.delivery.attempts r)
          (attempt svc db (some d) w)
  attempt-Settles-refused db svc d event w law sends found here =
      subst
        (λ (x : (Result DeliveryResult × ℕ) × E).
          Settles w.db d.delivery (w.now + x.0.1) (status_after svc d.delivery.attempts x.0.0)
            (due_after svc (w.now + x.0.1) d.delivery.attempts x.0.0) (attempt svc db (some d) w))
        sends (attempt-Settles db law svc d event w found here)

  -- An attempt at a stored delivery, whose event is stored, through the HTTP channel ends at once if
  -- the check of its URL answers with status 400: the attempt returns, the delivery is in DLQ however
  -- few attempts it had, no further attempt is put into the outbox, and the state outside is as it
  -- was, since no request was posted.
  pub attempt-refused :
      (db : Prisma)
      → IsLawful db
      → (svc : Services E) (d : DispatchableDelivery) (event : WebhookEvent) (w : World E)
        (message : String)
      → assert_safe_webhook_url (channel.network w.external) channel.allow_local_urls d.endpoint.url
        ≡ err (http_exception 400 message)
      → find? (has_id d.delivery.id) w.db.deliveries ≡ some d.delivery
      → find? (event_has_id d.delivery.event_id) w.db.events ≡ some event
      → let r = attempt (with_http channel svc) db (some d) w in
        (r.0 ≡ ok tt)
        × ((row : Delivery) × (find? (has_id d.delivery.id) r.1.db.deliveries ≡ some row)
            × (row.status ≡ dlq))
        × (r.1.db.outbox ≡ w.db.outbox)
        × (r.1.external ≡ w.external)
  attempt-refused db law svc d event w message refused found here =
      let svc' = with_http channel svc in
      let sends = send-refused_attempt svc' w.now d w.external refused in
      let s = attempt-Settles-refused db svc' d event w law sends found here in
      let to_dlq = status_after-refused svc' d.delivery.attempts message in
      (
        s.returns,
        (s.row, s.stores, s.has_status ∙ to_dlq),
        s.queues ∙ no_rows w.db.outbox _ to_dlq,
        attempt_external db svc' d w sends,
      )
