-- ===== src/Dispatcher/Process/Sends.antt =====
-- The requests that a worker's job sends.
use webhook_engine.Base.{
  find?-holds, ℕ, ◌+◌, ◌≡◌, refl, sym, ap, ◌∙◌, subst, ◌⊎◌, inl, inr, ◌||◌, true, Option, some,
  none, List, ◌∷◌, Error, Result, ok, err, M, find?, final, then_with, then_with-keeps,
  caught-keeps, ◌>>=◌, arith, Bool-cases,
}
use webhook_engine.Prisma.{Prisma, IsLawful, reference, lawful-eq}
use webhook_engine.Schema.{DeliveryStatus, Delivery, Db}
use webhook_engine.World.{World, Request, on_db, on_external}
use webhook_engine.Dispatcher.Repository.{
  DispatchableDelivery, has_id, is_claimed_by, claim_for_processing, find_by_id, with_relations,
}
use webhook_engine.Dispatcher.Claims.{claim-some, find?-patch-claimed}
use webhook_engine.Dispatcher.Executor.{
  DeliveryResult, Services, request_of, send_request, complete, deliver, as_request_error,
  failure_status, gives_up, give_up_or_retry, handle_failure, attempt, execute,
}
use webhook_engine.Dispatcher.Process.{
  RateLimiter, RateLimitResult, RateScope, is_finished, check_endpoint, limited_or_executed,
  process_active, process_found, process,
}
use webhook_engine.Invariant.{Consistent}
use webhook_engine.Invariant.Claim.{with_relations-delivery}
use webhook_engine.Invariant.Marks.{has_id-eq}

module _ {E : Type 0} where
  abbrev HasSent : List Request → World E → Type 0
  HasSent sent w = w.sent ≡ sent

module _ {E : Type 0} (svc : Services E) where
  handle_failure-sent :
      (d : DispatchableDelivery) (error : Error) (w : World E)
      → (final (handle_failure svc reference d error) w).sent ≡ w.sent
  unfolding handle_failure give_up_or_retry
  handle_failure-sent d error w =
      elim (Bool-cases (
        gives_up svc d.delivery.attempts
          (failure_status (as_request_error svc.client_message error)))) [
            | inl stop ↦ rw stop (then_with-keeps (HasSent w.sent) _ _ refl (λ _ w' _ same. same))
            | inr again ↦ rw again (then_with-keeps (HasSent w.sent) _ _ refl (λ _ w' _ same. same))
          ]

  complete-sent :
      (d : DispatchableDelivery) (r : DeliveryResult) (w : World E)
      → (final (complete svc reference d r) w).sent ≡ w.sent
  unfolding complete
  complete-sent d r w = then_with-keeps (HasSent w.sent) _ _ refl (λ _ w' _ same. same)

  -- An attempt sends one request.
  attempt-sent :
      (d : DispatchableDelivery) (w : World E)
      → (final (attempt svc reference (some d)) w).sent ≡ request_of svc w.now d ∷ w.sent
  unfolding attempt deliver send_request
  attempt-sent d w =
      let sent = request_of svc w.now d ∷ w.sent in
      caught-keeps (HasSent sent) (handle_failure svc reference d) (deliver svc reference d w)
        (then_with-keeps (HasSent sent) (complete svc reference d)
          (send_request svc (request_of svc w.now d) w) refl
          (λ r w' _ same. complete-sent d r w' ∙ same))
        (λ e w' _ same. handle_failure-sent d e w' ∙ same)

-- Nothing was sent; or one request was, and the row of the identifier was PENDING or FAILED with one
-- attempt fewer than `n`.
abbrev pub SendsOnce : Db → List Request → ℕ → ℕ → List Request → Type 0
SendsOnce s before id n after =
    (after ≡ before)
    ⊎ ((d : Delivery) × (find? (has_id id) s.deliveries ≡ some d)
        × (d.attempts + 1 ≡ n)
        × ((d.status ≡ DeliveryStatus.pending) ⊎ (d.status ≡ DeliveryStatus.failed))
        × (request : Request) × (after ≡ request ∷ before))

is_claimed_by-holds :
    (id n : ℕ) (d : Delivery)
    → is_claimed_by id n d ≡ true
    → (d.attempts + 1 ≡ n)
      × ((d.status ≡ DeliveryStatus.pending) ⊎ (d.status ≡ DeliveryStatus.failed))
is_claimed_by-holds id n d h = ground arith

module _ {E : Type 0} (svc : Services E) where
  attempt-SendsOnce :
      (id n : ℕ) (w : World E) (o : Option DispatchableDelivery) (w' : World E)
      → Consistent w.db
      → on_db (claim_for_processing reference w.now id n) w ≡ (ok o, w')
      → SendsOnce w.db w.sent id n (final (attempt svc reference o) w').sent
  unfolding attempt
  attempt-SendsOnce id n w none w' c h = inl (sym (ap {B = List Request} (λ r. r.1.sent) h))
  attempt-SendsOnce id n w (some x) w' c h =
      let h' =
        ap {B = Result (Option DispatchableDelivery) × Db}
          (λ (r : Result (Option DispatchableDelivery) × World E). (r.0, r.1.db)) h in
      let (some', _, _) = claim-some w.now id n w.db {x = x} {t = w'.db} h' in
      let (row, _, found, hit) = find?-patch-claimed w.now id n w.db.deliveries c.distinct some' in
      let kept : w'.sent ≡ w.sent = sym (ap {B = List Request} (λ r. r.1.sent) h) in
      let request = request_of svc w'.now x in
      let (attempts, status) = is_claimed_by-holds id n row hit in
      inr (
        row,
        found,
        attempts,
        status,
        request,
        attempt-sent svc x w' ∙ ap (λ sent. request ∷ sent) kept,
      )

  execute-SendsOnce :
      (d : DispatchableDelivery) (n : ℕ) (w : World E)
      → Consistent w.db
      → SendsOnce w.db w.sent d.delivery.id n (final (execute svc reference d n) w).sent
  unfolding execute
  execute-SendsOnce d n w c =
      let id = d.delivery.id in
      then_with-keeps (λ w'. SendsOnce w.db w.sent id n w'.sent) (attempt svc reference)
        (on_db (claim_for_processing reference w.now id n) w) (inl refl)
        (λ o w' h _. attempt-SendsOnce id n w o w' c h)

module _ {E : Type 0} (svc : Services E) (limiter : RateLimiter E) where
  limited_or_executed-SendsOnce :
      (d : DispatchableDelivery) (n : ℕ) (tl el : RateLimitResult) (w : World E)
      → Consistent w.db
      → SendsOnce w.db w.sent d.delivery.id n
          (final (limited_or_executed reference svc limiter d n tl el) w).sent
  unfolding limited_or_executed
  limited_or_executed-SendsOnce d n tl el w c = elim (Bool-cases (tl.exceeded || el.exceeded)) [
    | inl limited ↦
        rw limited (inl (then_with-keeps (HasSent w.sent) _ _ refl (λ _ w' _ same. same)))
    | inr free ↦ rw free (execute-SendsOnce svc d n w c)
  ]

  -- What was seen of the world before, and what is done then.
  then_with-SendsOnce :
      {A B : Type 0} (s : Db) (before : List Request) (id n : ℕ) (f : A → M (World E) B)
      (r : Result A × World E)
      → r.1.db ≡ s
      → r.1.sent ≡ before
      → ((a : A) (w : World E)
          → w.db ≡ s
          → w.sent ≡ before
          → SendsOnce s before id n (final (f a) w).sent)
      → SendsOnce s before id n (then_with f r).1.sent
  then_with-SendsOnce s before id n f (ok a, w) db sent k = k a w db sent
  then_with-SendsOnce s before id n f (err e, w) db sent k = inl sent

  check_endpoint-keeps :
      (d : DispatchableDelivery) (tl : RateLimitResult) (w : World E)
      → ((final (check_endpoint reference svc limiter d tl) w).db ≡ w.db)
        × ((final (check_endpoint reference svc limiter d tl) w).sent ≡ w.sent)
  unfolding check_endpoint
  check_endpoint-keeps d tl w = ground arith

  process_active-SendsOnce :
      (d : DispatchableDelivery) (n : ℕ) (w : World E)
      → Consistent w.db
      → SendsOnce w.db w.sent d.delivery.id n
          (final (process_active reference svc limiter d n) w).sent
  unfolding process_active
  process_active-SendsOnce d n w c =
      let id = d.delivery.id in
      then_with-SendsOnce w.db w.sent id n
        (λ tl.
          check_endpoint reference svc limiter d tl
          >>= limited_or_executed reference svc limiter d n tl)
        (on_external (limiter (RateScope.tenant d.tenant.id) d.tenant.rate_limit w.now) w) refl refl
        (λ tl w1 db1 sent1.
          let (db2, sent2) = check_endpoint-keeps d tl w1 in
          then_with-SendsOnce w.db w.sent id n (limited_or_executed reference svc limiter d n tl)
            (check_endpoint reference svc limiter d tl w1) (db2 ∙ db1) (sent2 ∙ sent1)
            (λ el w2 db sent.
              subst
                (λ (s : Db).
                  SendsOnce s w.sent id n
                    (final (limited_or_executed reference svc limiter d n tl el) w2).sent)
                db
                (subst
                  (λ (before : List Request).
                    SendsOnce w2.db before id n
                      (final (limited_or_executed reference svc limiter d n tl el) w2).sent)
                  sent
                  (limited_or_executed-SendsOnce d n tl el w2
                    (subst (λ (s : Db). Consistent s) (sym db) c)))))

  process_found-SendsOnce :
      (id : ℕ) (o : Option DispatchableDelivery) (n : ℕ) (w : World E)
      → Consistent w.db
      → ((d : DispatchableDelivery) → o ≡ some d → d.delivery.id ≡ id)
      → SendsOnce w.db w.sent id n (final (process_found reference svc limiter o n) w).sent
  unfolding process_found
  process_found-SendsOnce id none n w c key = inl refl
  process_found-SendsOnce id (some d) n w c key =
      elim (Bool-cases (is_finished d.delivery.status)) [
        | inl done' ↦ rw done' (inl refl)
        | inr open' ↦ rw open' (elim (Bool-cases d.endpoint.is_active) [
          | inl active ↦ simp active (
              subst
                (λ (i : ℕ).
                  SendsOnce w.db w.sent i n
                    (final (process_active reference svc limiter d n) w).sent)
                (key d refl) (process_active-SendsOnce d n w c))
          | inr inactive ↦ simp inactive (inl refl)
        ])
      ]

  process-reference-SendsOnce :
      (id n : ℕ) (w : World E)
      → Consistent w.db
      → SendsOnce w.db w.sent id n (final (process reference svc limiter id n) w).sent
  unfolding process find_by_id
  process-reference-SendsOnce id n w c =
      process_found-SendsOnce id (with_relations reference w.db (find? (has_id id) w.db.deliveries))
        n w c
        (λ x e.
          let found = with_relations-delivery w.db (find? (has_id id) w.db.deliveries) e in
          has_id-eq id x.delivery (find?-holds (has_id id) w.db.deliveries found))

-- In a consistent database, a worker's job sends at most one request, and none unless the delivery
-- that it names is stored as PENDING or FAILED with one attempt fewer than the job's.
pub process-SendsOnce :
    {E : Type 0} (db : Prisma)
    → IsLawful db
    → (svc : Services E) (limiter : RateLimiter E) (delivery_id expected_attempt : ℕ) (w : World E)
    → Consistent w.db
    → SendsOnce w.db w.sent delivery_id expected_attempt
        (final (process db svc limiter delivery_id expected_attempt) w).sent
process-SendsOnce db law svc limiter id n w c =
    rw (lawful-eq db law) (process-reference-SendsOnce svc limiter id n w c)
