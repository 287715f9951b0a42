-- ===== src/Dispatcher/Claims.antt =====
-- What a successful claim means: `claimForProcessing` of
-- src/dispatcher/infrastructure/persistence/prisma-dispatch-deliveries.repository.ts
use native.Mathlib.Decide.{ℕ_discrete}
use webhook_engine.Base.{
  settle-ok, patch_none, ℕ, ◌≡◌, refl, ◌≢◌, true, Option, some, none, List, [], ◌∷◌, ok, patch,
  count, find?, All, subst, arith, Bool-cases, Option-cases, inl, inr, ne→eqb,
}
use webhook_engine.Prisma.{Prisma, IsLawful, reference, lawful-eq}
use webhook_engine.Schema.{DeliveryStatus, Delivery, Db}
use webhook_engine.Dispatcher.Repository.{
  DispatchableDelivery, claim_for_processing, after_claim, start_event, find_by_id, with_relations,
  has_id, event_has_id, is_claimed_by, claimed,
}
use webhook_engine.Invariant.{Consistent}
use webhook_engine.Invariant.Claim.{with_relations-delivery}
use webhook_engine.Invariant.Summary.{HasDistinctIds}

-- No other row has the identifier, so none is changed.
pub count_of_ne :
    (id n : ℕ) (ds : List Delivery) → All (λ x. x.id ≢ id) ds → count (is_claimed_by id n) ds ≡ 0
count_of_ne id n [] h = refl
count_of_ne id n (d ∷ ds) h = ground (arith, count_of_ne id n ds h.1)

pub find?-patch-claimed :
    (now id n : ℕ) (ds : List Delivery)
    → HasDistinctIds ds
    → count (is_claimed_by id n) ds ≢ 0
    → (d : Delivery) × (find? (has_id id) (patch (is_claimed_by id n) (claimed now) ds)
        ≡ some (claimed now d))
      × (find? (has_id id) ds ≡ some d)
      × (is_claimed_by id n d ≡ true)
find?-patch-claimed now id n [] h some' = absurd (some' refl)
find?-patch-claimed now id n (d ∷ ds) (h, hs) some' = elim (Bool-cases (is_claimed_by id n d)) [
  | inl hit ↦ (d, ground arith, ground arith, hit)
  | inr miss ↦ elim (Bool-cases (has_id id d)) [
    | inl same ↦
        let key : d.id ≡ id = ground arith in
        let none' = count_of_ne id n ds (subst (λ (m : ℕ). All (λ x. x.id ≢ m) ds) key h) in
        absurd (ground arith)
    | inr other ↦
        let (d', found, there, e) = find?-patch-claimed now id n ds hs (ground arith) in
        (d', ground arith, ground arith, e)
  ]
]

start_event-some :
    (now : ℕ) (o : Option DispatchableDelivery) (s : Db) {x : DispatchableDelivery} {t : Db}
    → start_event reference now o s ≡ (ok (some x), t)
    → (o ≡ some x) × (t.deliveries ≡ s.deliveries)
unfolding start_event
start_event-some now none s h = absurd cc
start_event-some now (some y) s {x} {t} h =
    elim (Option-cases (find? (event_has_id y.delivery.event_id) s.events)) [
      | inl missing ↦ let h' = rw missing at h in absurd cc
      | inr (e, here) ↦ let h' = rw here at h in (ground arith, ground arith)
    ]

after_claim-some :
    (now id changed : ℕ) (s : Db) {x : DispatchableDelivery} {t : Db}
    → after_claim reference now id changed s ≡ (ok (some x), t)
    → (changed ≢ 0)
      × (with_relations reference s (find? (has_id id) s.deliveries) ≡ some x)
      × (t.deliveries ≡ s.deliveries)
unfolding after_claim find_by_id
after_claim-some now id changed s {x} {t} h = elim (ℕ_discrete changed 0) [
  | yes none' ↦ let h' = rw none' at h in absurd cc
  | no some' ↦
      let h' = rw (ne→eqb changed 0 some') at h in
      let (found, same) =
        start_event-some now (with_relations reference s (find? (has_id id) s.deliveries)) s h' in
      (some', found, same)
]

-- After a claim no row of the identifier can be claimed.
count-patch-claimed :
    (now id n m : ℕ) (ds : List Delivery)
    → HasDistinctIds ds
    → count (is_claimed_by id n) ds ≢ 0
    → count (is_claimed_by id m) (patch (is_claimed_by id n) (claimed now) ds) ≡ 0
count-patch-claimed now id n m [] h some' = absurd (some' refl)
count-patch-claimed now id n m (d ∷ ds) (h, hs) some' = elim (Bool-cases (has_id id d)) [
  | inl same ↦
      let key : d.id ≡ id = ground arith in
      let others = subst (λ (k : ℕ). All (λ x. x.id ≢ k) ds) key h in
      let none' = count_of_ne id n ds others in
      let kept = patch_none (is_claimed_by id n) (claimed now) ds none' in
      let none'' = count_of_ne id m ds others in
      elim (Bool-cases (is_claimed_by id n d)) [
        | inl hit ↦ rw (hit, kept) (ground arith)
        | inr miss ↦ absurd (ground arith)
      ]
  | inr other ↦ ground (arith, count-patch-claimed now id n m ds hs)
]

abbrev pub rows_claimed : ℕ → ℕ → ℕ → Db → Db
rows_claimed now id n s = record s {
  deliveries = patch (is_claimed_by id n) (claimed now) s.deliveries;
}

pub claim-some :
    (now id n : ℕ) (s : Db) {x : DispatchableDelivery} {t : Db}
    → claim_for_processing reference now id n s ≡ (ok (some x), t)
    → (count (is_claimed_by id n) s.deliveries ≢ 0)
      × (find? (has_id id) (rows_claimed now id n s).deliveries ≡ some x.delivery)
      × (t.deliveries ≡ (rows_claimed now id n s).deliveries)
unfolding claim_for_processing
claim-some now id n s {x} {t} h =
    let changed = count (is_claimed_by id n) s.deliveries in
    let s' = rows_claimed now id n s in
    let (some', found, same) =
      after_claim-some now id changed s'
        (settle-ok s (after_claim reference now id changed s') h) in
    (some', with_relations-delivery s' _ found, same)

pub reference_claim_result :
    (now id n : ℕ) (s : Db) {x : DispatchableDelivery} {t : Db}
    → Consistent s
    → claim_for_processing reference now id n s ≡ (ok (some x), t)
    → (find? (has_id id) t.deliveries ≡ some x.delivery)
      × (x.delivery.id ≡ id)
      × (x.delivery.status ≡ DeliveryStatus.processing)
      × (x.delivery.attempts ≡ n)
      × (x.delivery.last_attempt_at ≡ some now)
reference_claim_result now id n s {x} {t} c h =
    let (some', found, same) = claim-some now id n s h in
    let (d, here, _, hit) = find?-patch-claimed now id n s.deliveries c.distinct some' in
    let e : claimed now d ≡ x.delivery = cc in
    (
      rw same found,
      subst (λ (y : Delivery). y.id ≡ id) e (ground arith),
      subst (λ (y : Delivery). y.status ≡ DeliveryStatus.processing) e refl,
      subst (λ (y : Delivery). y.attempts ≡ n) e (ground arith),
      subst (λ (y : Delivery). y.last_attempt_at ≡ some now) e refl,
    )

pub claim_none :
    (now id n : ℕ) (s : Db)
    → count (is_claimed_by id n) s.deliveries ≡ 0
    → claim_for_processing reference now id n s ≡ (ok none, s)
unfolding claim_for_processing after_claim
claim_none now id n s h = rw (h, patch_none (is_claimed_by id n) (claimed now) s.deliveries h)

reference_claim_exclusive :
    (now id n now' m : ℕ) (s : Db) {x : DispatchableDelivery} {t : Db}
    → Consistent s
    → claim_for_processing reference now id n s ≡ (ok (some x), t)
    → claim_for_processing reference now' id m t ≡ (ok none, t)
reference_claim_exclusive now id n now' m s {x} {t} c h =
    let (some', found, same) = claim-some now id n s h in
    claim_none now' id m t (rw same (count-patch-claimed now id n m s.deliveries c.distinct some'))

module _ (db : Prisma) (law : IsLawful db) where
  -- In a consistent database, a claim that gives a delivery gives the row of that identifier as it is
  -- stored afterwards: its status is PROCESSING, its number of attempts is the one that the job
  -- expected, and its last attempt is now.
  pub claim_result :
      (now id n : ℕ) (s t : Db) (x : DispatchableDelivery)
      → Consistent s
      → claim_for_processing db now id n s ≡ (ok (some x), t)
      → (find? (has_id id) t.deliveries ≡ some x.delivery)
        × (x.delivery.id ≡ id)
        × (x.delivery.status ≡ DeliveryStatus.processing)
        × (x.delivery.attempts ≡ n)
        × (x.delivery.last_attempt_at ≡ some now)
  claim_result now id n s t x c h = reference_claim_result now id n s c (
      subst (λ (d : Prisma). claim_for_processing d now id n s ≡ (ok (some x), t))
        (lawful-eq db law) h)

  -- In a consistent database, a delivery that one worker has claimed is claimed by no other: a further
  -- claim, whatever attempt it expects, gives none and leaves the database as it is.
  pub claim_exclusive :
      (now id n now' m : ℕ) (s t : Db) (x : DispatchableDelivery)
      → Consistent s
      → claim_for_processing db now id n s ≡ (ok (some x), t)
      → claim_for_processing db now' id m t ≡ (ok none, t)
  claim_exclusive now id n now' m s t x c h = rw (lawful-eq db law) (
      reference_claim_exclusive now id n now' m s c (
        subst (λ (d : Prisma). claim_for_processing d now id n s ≡ (ok (some x), t))
          (lawful-eq db law) h))
