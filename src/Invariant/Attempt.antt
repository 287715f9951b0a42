-- ===== src/Invariant/Attempt.antt =====
-- An attempt at a delivery keeps the invariant, whatever the receiver does:
-- src/dispatcher/application/services/delivery-executor.service.ts
use webhook_engine.Base.{
  subst, sym, ap, ◌∙◌, String, then_with, ℕ, ◌≡◌, refl, true, Option, some, none, Error, Result, ok,
  err, M, then_with-keeps, caught-keeps, settle-err, find?, final, inl, inr, Bool-cases,
}
use webhook_engine.Prisma.{reference}
use webhook_engine.Schema.{DeliveryStatus, Delivery, Db}
use webhook_engine.World.{World, increment, on_db}
use webhook_engine.Dispatcher.Policy.{is_unfinished}
use webhook_engine.Dispatcher.Repository.{
  DispatchableDelivery, has_id, claim_for_processing, finish, mark_success, mark_dead_letter,
  mark_failed_and_schedule, failed_with,
}
use webhook_engine.Dispatcher.Executor.{
  as_request_error, failure_status, Services, DeliveryResult, request_of, failure_input, complete,
  deliver, send_request, give_up_or_retry, handle_failure, attempt, execute, gives_up,
}
use webhook_engine.Dispatcher.Claims.{reference_claim_result}
use webhook_engine.Invariant.Claim.{claim-Consistent}
use webhook_engine.Invariant.{Consistent}
use webhook_engine.Invariant.Marks.{finish-Consistent, reschedule-Consistent}
use webhook_engine.Invariant.Steps.{IsUnfinished}

-- What the executor gets: the row that is stored under its identifier, and not finished.
abbrev pub IsCurrent : DispatchableDelivery → Db → Type 0
IsCurrent d s =
    (find? (has_id d.delivery.id) s.deliveries ≡ some d.delivery)
    × (is_unfinished d.delivery.status ≡ true)

pub IsCurrent-IsUnfinished :
    (d : DispatchableDelivery) (s : Db) → IsCurrent d s → IsUnfinished d.delivery.id s
IsCurrent-IsUnfinished d s (found, h) x e =
    let same : d.delivery ≡ x = cc in subst (λ (y : Delivery). is_unfinished y.status ≡ true) same h

module _ {E : Type 0} where
  abbrev pub Sound : World E → Type 0
  Sound w = Consistent w.db

module _ {E : Type 0} (svc : Services E) where
  give_up_or_retry-Consistent :
      (d : DispatchableDelivery) (e : _) (status : ℕ) (w : World E)
      → Consistent w.db
      → IsUnfinished d.delivery.id w.db
      → Consistent (final (give_up_or_retry svc reference d e status) w).db
  unfolding give_up_or_retry mark_dead_letter mark_failed_and_schedule
  give_up_or_retry-Consistent d e status w c before =
      elim (Bool-cases (gives_up svc d.delivery.attempts status)) [
        | inl stop ↦ rw stop (
            then_with-keeps Sound _ _
              (finish-Consistent w.now d.delivery.id _ w.db
                (record { id = λ x. refl; event_id = λ x. refl }) c)
              (λ _ w' _ c'. c'))
        | inr again ↦ rw again (
            then_with-keeps Sound _ _
              (reschedule-Consistent w.now d.delivery.id _ _
                (failed_with w.now (failure_input svc reference w.now d e status)) w.db
                (record { id = λ x. refl; event_id = λ x. refl }) (λ x. refl) before c)
              (λ _ w' _ c'. c'))
      ]

  complete-Consistent :
      (d : DispatchableDelivery) (r : DeliveryResult) (w : World E)
      → Consistent w.db
      → Consistent (final (complete svc reference d r) w).db
  unfolding complete mark_success
  complete-Consistent d r w c =
      then_with-keeps Sound _ _
        (finish-Consistent w.now d.delivery.id _ w.db
          (record { id = λ x. refl; event_id = λ x. refl }) c)
        (λ _ w' _ c'. c')

  deliver-Consistent :
      (d : DispatchableDelivery) (w : World E)
      → Consistent w.db
      → Consistent (final (deliver svc reference d) w).db
  unfolding deliver send_request
  deliver-Consistent d w c =
      then_with-keeps Sound (complete svc reference d) (send_request svc (request_of svc w.now d) w)
        c (λ r w' _ c'. complete-Consistent d r w' c')

  then_with-err :
      {A : Type 0} (s : Db) (f : A → M (World E) (Unit {0})) (r : Result A × World E) {e : Error}
      {w' : World E}
      → r.1.db ≡ s
      → ((a : A) (w : World E) (e : Error) (w' : World E) → f a w ≡ (err e, w') → w'.db ≡ w.db)
      → then_with f r ≡ (err e, w')
      → w'.db ≡ s
  then_with-err s f (ok a, w) {e} {w'} same kept h = kept a w e w' h ∙ same
  then_with-err s f (err e, w) same kept h =
      sym (ap (λ (x : Result (Unit {0}) × World E). x.1.db) h) ∙ same

  counted-err :
      (name : String) (r : Result (Unit {0}) × World E) {e : Error} {w' : World E}
      → then_with (λ _. increment name) r ≡ (err e, w')
      → r ≡ (err e, w')
  counted-err name (ok a, s) h = absurd cc
  counted-err name (err e, s) h = h

  -- A delivery that fails has not changed the database.
  complete-err :
      (d : DispatchableDelivery) (r : DeliveryResult) (w : World E) {e : Error} {w' : World E}
      → complete svc reference d r w ≡ (err e, w')
      → w'.db ≡ w.db
  unfolding complete mark_success finish
  complete-err d r w {e} {w'} h =
      let h' = counted-err "deliveries_success_total" _ h in
      settle-err w.db _ {e = e} {t = w'.db}
        (ap (λ (x : Result (Unit {0}) × World E). (x.0, x.1.db)) h')

  deliver-err :
      (d : DispatchableDelivery) (w : World E) {e : Error} {w' : World E}
      → deliver svc reference d w ≡ (err e, w')
      → w'.db ≡ w.db
  unfolding deliver send_request
  deliver-err d w h =
      then_with-err w.db (complete svc reference d) (send_request svc (request_of svc w.now d) w)
        refl (λ r w1 e w' h1. complete-err d r w1 h1) h

  attempt-Consistent :
      (o : Option DispatchableDelivery) (w : World E)
      → Consistent w.db
      → ((d : DispatchableDelivery) → o ≡ some d → IsCurrent d w.db)
      → Consistent (final (attempt svc reference o) w).db
  unfolding attempt handle_failure
  attempt-Consistent none w c here = c
  attempt-Consistent (some d) w c here =
      caught-keeps Sound (handle_failure svc reference d) (deliver svc reference d w)
        (deliver-Consistent d w c)
        (λ e w' h c'.
          let re = as_request_error svc.client_message e in
          give_up_or_retry-Consistent d re (failure_status re) w' c' (
            subst (λ (s : Db). IsUnfinished d.delivery.id s) (sym (deliver-err d w h))
              (IsCurrent-IsUnfinished d w.db (here d refl))))

  pub execute-Consistent :
      (d : DispatchableDelivery) (n : ℕ) (w : World E)
      → Consistent w.db
      → Consistent (final (execute svc reference d n) w).db
  unfolding execute
  execute-Consistent d n w c =
      then_with-keeps Sound (attempt svc reference)
        (on_db (claim_for_processing reference w.now d.delivery.id n) w)
        (claim-Consistent w.now d.delivery.id n w.db c)
        (λ o w' h c'. attempt-Consistent o w' c' (λ x e.
          let h' =
            ap {B = Result (Option DispatchableDelivery) × Db}
              (λ (r : Result (Option DispatchableDelivery) × World E). (r.0, r.1.db)) h in
          let (found, id, status, _, _) =
            reference_claim_result w.now d.delivery.id n w.db {x = x} {t = w'.db} c (rw e at h') in
          (
            subst (λ (i : ℕ). find? (has_id i) w'.db.deliveries ≡ some x.delivery) (sym id) found,
            subst (λ (st : DeliveryStatus). is_unfinished st ≡ true) (sym status) refl,
          )))
