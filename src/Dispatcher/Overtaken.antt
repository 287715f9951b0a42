-- ===== src/Dispatcher/Overtaken.antt =====
-- A job that meets the rate limit after its delivery was claimed for the same attempt:
-- `markRateLimitedAndSchedule` of
-- src/dispatcher/infrastructure/persistence/prisma-dispatch-deliveries.repository.ts
use webhook_engine.Base.{
  ℕ, suc, ◌≡◌, refl, sym, ◌≢◌, some, none, List, [], ◌∷◌, ◌++◌, ok, find?, patch, count, All, subst,
  arith, Bool-cases, inl, inr,
}
use webhook_engine.Prisma.{Prisma, IsLawful, reference, lawful-eq}
use webhook_engine.Schema.{Delivery, Db}
use webhook_engine.Dispatcher.Repository.{
  has_id, is_claimed_by, outbox_row, rate_limited_until, claim_for_processing,
  mark_rate_limited_and_schedule,
}
use webhook_engine.Dispatcher.Claims.{count_of_ne, claim_none}
use webhook_engine.Invariant.{Consistent}
use webhook_engine.Invariant.Summary.{HasDistinctIds}

unclaimable_after :
    (now at id n : ℕ) (ds : List Delivery) {d : Delivery}
    → HasDistinctIds ds
    → find? (has_id id) ds ≡ some d
    → d.attempts ≡ n
    → count (is_claimed_by id n) (patch (has_id id) (rate_limited_until now at) ds) ≡ 0
unclaimable_after now at id n [] h found same = refl
unclaimable_after now at id n (x ∷ ds) {d} (h, hs) found same = elim (Bool-cases (has_id id x)) [
  | inl hit ↦
      let key : x.id ≡ id = ground arith in
      let others = subst (λ (k : ℕ). All (λ y. y.id ≢ k) ds) key h in
      let kept = patch-ne now at id ds others in
      let none' = count_of_ne id n ds others in
      let this : x ≡ d = ground arith in
      let attempts : x.attempts ≡ n = subst (λ (y : Delivery). y.attempts ≡ n) (sym this) same in
      rw (hit, kept) (ground arith)
  | inr miss ↦ ground (arith, unclaimable_after now at id n ds {d = d} hs)
]
  where
    patch-ne :
        (now at id : ℕ) (ds : List Delivery)
        → All (λ y. y.id ≢ id) ds
        → patch (has_id id) (rate_limited_until now at) ds ≡ ds
    patch-ne now at id [] h = refl
    patch-ne now at id (y ∷ ds) h = ground (arith, patch-ne now at id ds h.1)

reference_overtaken :
    (now id due n later : ℕ) (s : Db) (d : Delivery)
    → Consistent s
    → find? (has_id id) s.deliveries ≡ some d
    → d.attempts ≡ n
    → (t : Db) × (mark_rate_limited_and_schedule reference now id due n s ≡ (ok tt, t))
      × (t.outbox ≡ s.outbox ++ outbox_row now s.next_id id due n ∷ [])
      × (claim_for_processing reference later id n t ≡ (ok none, t))
unfolding mark_rate_limited_and_schedule
reference_overtaken now id due n later s d c found same =
    let t = record s {
      deliveries = patch (has_id id) (rate_limited_until now due) s.deliveries;
      outbox = s.outbox ++ outbox_row now s.next_id id due n ∷ [];
      next_id = suc s.next_id;
    } in
    (
      t,
      rw found,
      refl,
      claim_none later id n t (unclaimable_after now due id n s.deliveries c.distinct found same),
    )

-- In a consistent database, if the delivery of a rate-limited job has already been claimed for the
-- job's attempt, so that its number of attempts is the job's, then the outbox row that is scheduled
-- for that attempt is in vain: no claim for it, at whatever time, succeeds in the database reached.
pub rate_limited_overtaken :
    (db : Prisma)
    → IsLawful db
    → (now id due n later : ℕ) (s : Db) (d : Delivery) → Consistent s
    → find? (has_id id) s.deliveries ≡ some d
    → d.attempts ≡ n
    → (t : Db) × (mark_rate_limited_and_schedule db now id due n s ≡ (ok tt, t))
      × (t.outbox ≡ s.outbox ++ outbox_row now s.next_id id due n ∷ [])
      × (claim_for_processing db later id n t ≡ (ok none, t))
rate_limited_overtaken db law now id due n later s d c found same =
    rw (lawful-eq db law) (reference_overtaken now id due n later s d c found same)
