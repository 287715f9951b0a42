-- ===== src/Invariant/Worker.antt =====
-- A worker's job and the invariant:
-- src/dispatcher/application/use-cases/process-delivery.use-case.ts
use webhook_engine.Base.{
  find?-holds, ◌>>=◌, max, ◌||◌, subst, sym, ◌∙◌, then_with, ℕ, ◌+◌, ◌≡◌, refl, Option, some, none,
  Result, ok, err, M, then_with-keeps, find?, final, arith, inl, inr, Bool-cases,
}
use webhook_engine.Prisma.{Prisma, IsLawful, reference, lawful-eq}
use webhook_engine.Schema.{Db}
use webhook_engine.World.{World, on_external}
use webhook_engine.Dispatcher.Repository.{
  DispatchableDelivery, has_id, find_by_id, with_relations, mark_cancelled,
  mark_rate_limited_and_schedule, rate_limited_until,
}
use webhook_engine.Dispatcher.Executor.{Services}
use webhook_engine.Dispatcher.Process.{
  RateScope, RateLimiter, RateLimitResult, is_finished, check_endpoint, limited_or_executed,
  process_active, process_found, process,
}
use webhook_engine.Invariant.Claim.{with_relations-delivery}
use webhook_engine.Invariant.{Consistent}
use webhook_engine.Invariant.Marks.{has_id-eq, finish-Consistent, reschedule-Consistent}
use webhook_engine.Invariant.Steps.{IsUnfinished}
use webhook_engine.Invariant.Attempt.{Sound, IsCurrent-IsUnfinished, execute-Consistent}

module _ {E : Type 0} where
  -- What happens before leaves the database as it is, and what happens then keeps the invariant.
  then_with-same :
      {A B : Type 0} (s : Db) (f : A → M (World E) B) (r : Result A × World E)
      → Consistent s
      → r.1.db ≡ s
      → ((a : A) (w : World E) → w.db ≡ s → Consistent (final (f a) w).db)
      → Consistent (then_with f r).1.db
  then_with-same s f (ok a, w) c same k = k a w same
  then_with-same s f (err e, w) c same k = subst (λ (t : Db). Consistent t) (sym same) c

module _ {E : Type 0} (svc : Services E) (limiter : RateLimiter E) where
  limited_or_executed-Consistent :
      (d : DispatchableDelivery) (n : ℕ) (tl el : RateLimitResult) (w : World E)
      → Consistent w.db
      → IsUnfinished d.delivery.id w.db
      → Consistent (final (limited_or_executed reference svc limiter d n tl el) w).db
  unfolding limited_or_executed mark_rate_limited_and_schedule
  limited_or_executed-Consistent d n tl el w c before =
      elim (Bool-cases (tl.exceeded || el.exceeded)) [
        | inl limited ↦
            let at = w.now + max tl.delay_ms el.delay_ms in
            rw limited (
              then_with-keeps Sound _ _
                (reschedule-Consistent w.now d.delivery.id at n (rate_limited_until w.now at) w.db
                  (record { id = λ x. refl; event_id = λ x. refl }) (λ x. refl) before c)
                (λ _ w' _ c'. c'))
        | inr free ↦ rw free (execute-Consistent svc d n w c)
      ]

  -- The rate limiter does not touch the database.
  check_endpoint-db :
      (d : DispatchableDelivery) (tl : RateLimitResult) (w : World E)
      → (final (check_endpoint reference svc limiter d tl) w).db ≡ w.db
  unfolding check_endpoint
  check_endpoint-db d tl w = ground arith

  process_active-Consistent :
      (d : DispatchableDelivery) (n : ℕ) (w : World E)
      → Consistent w.db
      → IsUnfinished d.delivery.id w.db
      → Consistent (final (process_active reference svc limiter d n) w).db
  unfolding process_active
  process_active-Consistent d n w c before =
      then_with-same w.db
        (λ tl.
          check_endpoint reference svc limiter d tl
          >>= limited_or_executed reference svc limiter d n tl)
        (on_external (limiter (RateScope.tenant d.tenant.id) d.tenant.rate_limit w.now) w) c refl
        (λ tl w1 same1.
          then_with-same w.db (limited_or_executed reference svc limiter d n tl)
            (check_endpoint reference svc limiter d tl w1) c (check_endpoint-db d tl w1 ∙ same1)
            (λ el w2 same2.
              limited_or_executed-Consistent d n tl el w2
                (subst (λ (s : Db). Consistent s) (sym same2) c)
                (subst (λ (s : Db). IsUnfinished d.delivery.id s) (sym same2) before)))

  process_found-Consistent :
      (o : Option DispatchableDelivery) (n : ℕ) (w : World E)
      → Consistent w.db
      → ((d : DispatchableDelivery)
          → o ≡ some d
          → find? (has_id d.delivery.id) w.db.deliveries ≡ some d.delivery)
      → Consistent (final (process_found reference svc limiter o n) w).db
  unfolding process_found mark_cancelled
  process_found-Consistent none n w c here = c
  process_found-Consistent (some d) n w c here = elim (Bool-cases (is_finished d.delivery.status)) [
    | inl done' ↦ rw done' c
    | inr open' ↦ rw open' (elim (Bool-cases d.endpoint.is_active) [
      | inl active ↦ simp active (
          process_active-Consistent d n w c
            (IsCurrent-IsUnfinished d w.db (here d refl, ground arith)))
      | inr inactive ↦ simp inactive (
          finish-Consistent w.now d.delivery.id _ w.db
            (record { id = λ x. refl; event_id = λ x. refl }) c)
    ])
  ]

  process-reference-Consistent :
      (id n : ℕ) (w : World E)
      → Consistent w.db
      → Consistent (final (process reference svc limiter id n) w).db
  unfolding process find_by_id
  process-reference-Consistent id n w c =
      process_found-Consistent (with_relations reference w.db (find? (has_id id) w.db.deliveries)) n
        w c
        (λ x e.
          let found = with_relations-delivery w.db (find? (has_id id) w.db.deliveries) e in
          let same : x.delivery.id ≡ id =
            has_id-eq id x.delivery (find?-holds (has_id id) w.db.deliveries found) in
          subst (λ (i : ℕ). find? (has_id i) w.db.deliveries ≡ some x.delivery) (sym same) found)

-- A worker's job keeps the database consistent, whatever the receiver and the rate limiter answer and
-- also where their calls fail, for a lawful database, whose own calls do not fail by themselves, and where
-- no other worker comes in between.
pub process-Consistent :
    {E : Type 0} (db : Prisma)
    → IsLawful db
    → (svc : Services E) (limiter : RateLimiter E) (delivery_id expected_attempt : ℕ) (w : World E)
    → Consistent w.db
    → Consistent (final (process db svc limiter delivery_id expected_attempt) w).db
process-Consistent db law svc limiter id n w c =
    rw (lawful-eq db law) (process-reference-Consistent svc limiter id n w c)
