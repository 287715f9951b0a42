-- ===== src/Invariant/Lifecycle/Refinement.antt =====
-- The engine refines the life of a delivery.
use webhook_engine.Base.{◌≡◌, refl, true, false, sym, subst, List, [], ◌∷◌, ℕ}
use webhook_engine.Prisma.{Prisma, IsLawful, reference, lawful-eq}
use webhook_engine.Schema.{DeliveryStatus, success, dlq, cancelled, Delivery, Db}
use webhook_engine.Dispatcher.Policy.{is_unfinished}
use webhook_engine.Dispatcher.Repository.{
  is_claimable, mark_success, mark_dead_letter, mark_cancelled, mark_failed_and_schedule,
  mark_rate_limited_and_schedule, with_outcome, with_reason, failed_with, rate_limited_until,
}
use webhook_engine.Invariant.Steps.{
  Step, Reach, ingest, claim, succeed, dead_letter, cancel, retry, rate_limit, reset, recover,
  configure, start, then,
}
use webhook_engine.Invariant.Lifecycle
use webhook_engine.Invariant.Lifecycle.Operations.{
  Advances, Advances-self, finish-Advances, reschedule-Advances, claim-Advances, recover-Advances,
  ingest-Advances, reset_for_replay-Advances,
}

-- What a step is to the deliveries.
abbrev pub action_of : {db : Prisma} {s t : Db} → Step db s t → Lifecycle.Action
action_of (ingest now input) = Lifecycle.Action.leave
action_of (claim now id n) = Lifecycle.Action.claim id n
action_of (succeed now id code text') = Lifecycle.Action.finish id success
action_of (dead_letter now id code text') = Lifecycle.Action.finish id dlq
action_of (cancel now id reason) = Lifecycle.Action.finish id cancelled
action_of (retry now input) = Lifecycle.Action.postpone input.id DeliveryStatus.failed
action_of (rate_limit now id at n) = Lifecycle.Action.postpone id DeliveryStatus.pending
action_of (reset now id) = Lifecycle.Action.reset id
action_of (recover now age d) = Lifecycle.Action.postpone d.id DeliveryStatus.failed
action_of (configure ts es subs k) = Lifecycle.Action.leave

-- The actions of a sequence of steps, the last of them first.
abbrev pub actions : {db : Prisma} {s t : Db} → Reach db s t → List Lifecycle.Action
actions start = []
actions (then r step) = action_of step ∷ actions r

finishes :
    (end : DeliveryStatus) {id : ℕ} (d : Delivery)
    → d.id ≡ id
    → is_unfinished end ≡ false
    → Lifecycle.Move d.id (Lifecycle.Action.finish id end) (Lifecycle.life d) (end, d.attempts)
finishes end d key closed =
    subst
      (λ (n : ℕ).
        Lifecycle.Move d.id (Lifecycle.Action.finish n end) (Lifecycle.life d) (end, d.attempts))
      key (Lifecycle.Move.finish d.status end d.attempts closed)

postpones :
    (next : DeliveryStatus) {id : ℕ} (d : Delivery)
    → d.id ≡ id
    → is_claimable next ≡ true
    → Lifecycle.Move d.id (Lifecycle.Action.postpone id next) (Lifecycle.life d) (next, d.attempts)
postpones next d key open' =
    subst
      (λ (n : ℕ).
        Lifecycle.Move d.id (Lifecycle.Action.postpone n next) (Lifecycle.life d)
          (next, d.attempts))
      key (Lifecycle.Move.postpone d.status next d.attempts open')

reference_Step-Advances : (s t : Db) (step : Step reference s t) → Advances (action_of step) s t
unfolding mark_success mark_dead_letter mark_cancelled mark_failed_and_schedule
    mark_rate_limited_and_schedule
reference_Step-Advances s _ (ingest now input) = ingest-Advances now input s
reference_Step-Advances s _ (claim now id n) = claim-Advances now id n s
reference_Step-Advances s _ (succeed now id code text') =
    finish-Advances (Lifecycle.Action.finish id success) now id
      (with_outcome now success code text') s (λ d key. (refl, finishes success d key refl))
reference_Step-Advances s _ (dead_letter now id code text') =
    finish-Advances (Lifecycle.Action.finish id dlq) now id (with_outcome now dlq code text') s
      (λ d key. (refl, finishes dlq d key refl))
reference_Step-Advances s _ (cancel now id reason) =
    finish-Advances (Lifecycle.Action.finish id cancelled) now id (with_reason now reason) s
      (λ d key. (refl, finishes cancelled d key refl))
reference_Step-Advances s _ (retry now input) =
    reschedule-Advances (Lifecycle.Action.postpone input.id DeliveryStatus.failed) now input.id
      input.next_attempt_at input.next_attempt_number (failed_with now input) s
      (λ d key. (refl, postpones DeliveryStatus.failed d key refl))
reference_Step-Advances s _ (rate_limit now id at attempt) =
    reschedule-Advances (Lifecycle.Action.postpone id DeliveryStatus.pending) now id at attempt
      (rate_limited_until now at) s (λ d key. (refl, postpones DeliveryStatus.pending d key refl))
reference_Step-Advances s _ (reset now id) = reset_for_replay-Advances now id s
reference_Step-Advances s _ (recover now age d) = recover-Advances now age d s
reference_Step-Advances s _ (configure ts es subs k) = Advances-self Lifecycle.Action.leave s

reference_Reach-Refines :
    (s t : Db) (r : Reach reference s t)
    → Lifecycle.Refines (Lifecycle.HasLived (actions r)) s.deliveries t.deliveries
reference_Reach-Refines s _ start =
    Lifecycle.Refines-self (Lifecycle.HasLived []) (λ d. (refl, Lifecycle.begin)) s.deliveries
reference_Reach-Refines s u (then {t} r step) =
    Lifecycle.Refines-then (action_of step) (actions r) s.deliveries t.deliveries u.deliveries
      (reference_Reach-Refines s t r) (reference_Step-Advances t u step)

-- The deliveries of a database that steps reach refine the abstract life of a delivery. Each row of the
-- first database is still there, at its place and with its identifier; and its status and attempts went
-- through one move of `Lifecycle.Move` for each of the steps, which that step's action allows: a row that
-- the step does not name stays; a claim for attempt `n` can only take a row that is PENDING or FAILED with
-- `n - 1` attempts, and makes it PROCESSING with `n`; an outcome gives it the outcome's status and keeps
-- its attempts; and a reset makes it PENDING with none. New deliveries stand behind. The steps are those of
-- `Reach-Consistent`.
pub Reach-Refines :
    (db : Prisma)
    → IsLawful db
    → (s t : Db) (r : Reach db s t)
    → Lifecycle.Refines (Lifecycle.HasLived (actions r)) s.deliveries t.deliveries
Reach-Refines db law =
    subst
      (λ (d : Prisma).
        (s t : Db) (r : Reach d s t)
        → Lifecycle.Refines (Lifecycle.HasLived (actions r)) s.deliveries t.deliveries)
      (sym (lawful-eq db law)) reference_Reach-Refines
