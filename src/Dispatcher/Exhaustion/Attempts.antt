-- ===== src/Dispatcher/Exhaustion/Attempts.antt =====
-- An attempt keeps a delivery with the rows that it refers to: `execute` of
-- src/dispatcher/application/services/delivery-executor.service.ts, after the claim.
use webhook_engine.Base.{
  String, Error, ℕ, ◌+◌, refl, inl, inr, Bool-cases, Option-cases, some, find?, M, final,
  then_with-keeps, caught-keeps, ◌>>◌,
}
use webhook_engine.Prisma.{reference}
use webhook_engine.Schema.{success, dlq, Delivery, Db}
use webhook_engine.World.{World, on_db, increment}
use webhook_engine.Dispatcher.Repository.{
  DispatchableDelivery, has_id, event_has_id, finish, reschedule, create_outbox, mark_success,
  mark_dead_letter, mark_failed_and_schedule, with_outcome, failed_with,
}
use webhook_engine.Dispatcher.Executor.{
  Services, DeliveryResult, complete, deliver, send_request, request_of, handle_failure,
  give_up_or_retry, gives_up, as_request_error, failure_status, failure_snippet, failure_input,
  success_snippet, attempt,
}
use webhook_engine.Dispatcher.Exhaustion.Related.{
  IsRelated, KeepsReferences, IsRelated-patch, IsRelated-set_event,
}

module _ {key endpoint_id event_id : ℕ} where
  finish-IsRelated :
      (now id : ℕ) (f : Delivery → Delivery) (s : Db)
      → KeepsReferences f
      → IsRelated key endpoint_id event_id s
      → IsRelated key endpoint_id event_id (final (finish reference now id f) s)
  unfolding finish
  finish-IsRelated now id f s k h = elim (Option-cases (find? (has_id id) s.deliveries)) [
    | inl missing ↦ rw missing h
    | inr (d, found) ↦
        rw found (elim (Option-cases (find? (event_has_id (f d).event_id) s.events)) [
          | inl missing ↦ rw missing h
          | inr (e, here) ↦ rw here (
              IsRelated-set_event now (f d).event_id _ _
                (IsRelated-patch (has_id id) f s s.outbox s.next_id k h))
        ])
  ]

  reschedule-IsRelated :
      (now id at number : ℕ) (f : Delivery → Delivery) (s : Db)
      → KeepsReferences f
      → IsRelated key endpoint_id event_id s
      → IsRelated key endpoint_id event_id (final (reschedule reference now id f at number) s)
  unfolding reschedule create_outbox
  reschedule-IsRelated now id at number f s k h =
      elim (Option-cases (find? (has_id id) s.deliveries)) [
        | inl missing ↦ rw missing h
        | inr (d, found) ↦ rw found (IsRelated-patch (has_id id) f s _ _ k h)
      ]

module _ {E : Type 0} (svc : Services E) (key endpoint_id event_id : ℕ) where
  abbrev Related : World E → Type 0
  Related w = IsRelated key endpoint_id event_id w.db

  counted-Related :
      (name : String) (m : M Db (Unit {0})) (w : World E)
      → IsRelated key endpoint_id event_id (final m w.db)
      → Related (final (on_db m >> increment name) w)
  counted-Related name m w h =
      then_with-keeps Related (λ _. increment name) (on_db m w) h (λ _ s _ h'. h')

  complete-Related :
      (d : DispatchableDelivery) (response : DeliveryResult) (w : World E)
      → Related w
      → Related (final (complete svc reference d response) w)
  unfolding complete mark_success
  complete-Related d response w h =
      counted-Related "deliveries_success_total"
        (mark_success reference w.now d.delivery.id response.status (success_snippet svc response))
        w
        (finish-IsRelated w.now d.delivery.id
          (with_outcome w.now success response.status (success_snippet svc response)) w.db
          (record { id = λ x. refl; endpoint_id = λ x. refl; event_id = λ x. refl }) h)

  handle_failure-Related :
      (d : DispatchableDelivery) (error : Error) (w : World E)
      → Related w
      → Related (final (handle_failure svc reference d error) w)
  unfolding handle_failure give_up_or_retry mark_dead_letter mark_failed_and_schedule
  handle_failure-Related d error w h =
      let e = as_request_error svc.client_message error in
      let id = d.delivery.id in
      let status = failure_status e in
      let text' = failure_snippet svc e status in
      let input = failure_input svc reference w.now d e status in
      elim (Bool-cases (gives_up svc d.delivery.attempts (failure_status e))) [
        | inl stop ↦ rw stop (
            counted-Related "deliveries_dlq_total"
              (mark_dead_letter reference w.now id status text') w
              (finish-IsRelated w.now id (with_outcome w.now dlq status text') w.db
                (record { id = λ x. refl; endpoint_id = λ x. refl; event_id = λ x. refl }) h))
        | inr again ↦ rw again (
            counted-Related "delivery_retries_scheduled_total"
              (mark_failed_and_schedule reference w.now input) w
              (reschedule-IsRelated w.now id input.next_attempt_at (d.delivery.attempts + 1)
                (failed_with w.now input) w.db
                (record { id = λ x. refl; endpoint_id = λ x. refl; event_id = λ x. refl }) h))
      ]

  pub attempt-Related :
      (d : DispatchableDelivery) (w : World E)
      → Related w
      → Related (final (attempt svc reference (some d)) w)
  unfolding attempt deliver send_request
  attempt-Related d w h =
      caught-keeps Related (handle_failure svc reference d) (deliver svc reference d w)
        (then_with-keeps Related (complete svc reference d)
          (send_request svc (request_of svc w.now d) w) h
          (λ response v _ h'. complete-Related d response v h'))
        (λ error v _ h'. handle_failure-Related d error v h')
