-- ===== src/Invariant/Claim.antt =====
-- Claiming a delivery keeps the invariant.
use native.Mathlib.Decide.{ℕ_discrete}
use webhook_engine.Base.{
  Option, All-find?, ne→eqb, settle-keeps, find?-holds, patch_none, ℕ, ◌≡◌, refl, ◌≢◌, true, some,
  none, List, find?, patch, count, All, final, arith, inl, inr, Option-cases,
}
use webhook_engine.Prisma.{reference}
use webhook_engine.Schema.{Delivery, Db}
use webhook_engine.Dispatcher.Policy.{is_unfinished}
use webhook_engine.Dispatcher.Repository.{
  find_by_id, after_claim, DispatchableDelivery, with_relations, start_event, claim_for_processing,
  is_claimed_by, claimed, has_id, event_has_id,
}
use webhook_engine.Invariant.{Consistent}
use webhook_engine.Invariant.Summary.{
  some_of-count, find?-ne-none, some_of, some_of-patch_self, HasDistinctIds, BelongsTo,
  find?-BelongsTo,
}
use webhook_engine.Invariant.Change.{BelongsTo-patch, set_processing, KeepsKeys, change_and_keep}

has_id-eq : (id : ℕ) (d : Delivery) → has_id id d ≡ true → d.id ≡ id
has_id-eq id d h = ground arith

is_claimed_by-id : (id n : ℕ) (d : Delivery) → is_claimed_by id n d ≡ true → d.id ≡ id
is_claimed_by-id id n d h = ground arith

is_claimed_by-unfinished :
    (id n : ℕ) (d : Delivery) → is_claimed_by id n d ≡ true → is_unfinished d.status ≡ true
is_claimed_by-unfinished id n d h = ground arith

pub with_relations-delivery :
    (s : Db) (o : Option Delivery) {x : DispatchableDelivery}
    → with_relations reference s o ≡ some x
    → o ≡ some x.delivery
with_relations-delivery s none h = cc
with_relations-delivery s (some d) h = ground arith

-- The event of a delivery that was just claimed is set to PROCESSING.
start_event-Consistent :
    (now : ℕ) (o : Option DispatchableDelivery) (s : Db)
    → Consistent s
    → ((x : DispatchableDelivery)
        → o ≡ some x
        → some_of is_unfinished x.delivery.event_id s.deliveries ≡ true)
    → Consistent (final (start_event reference now o) s)
unfolding start_event
start_event-Consistent now none s c h = c
start_event-Consistent now (some x) s c h =
    elim (Option-cases (find? (event_has_id x.delivery.event_id) s.events)) [
      | inl missing ↦ rw missing c
      | inr (e, here) ↦ rw here (set_processing s x.delivery.event_id now c (h x refl))
    ]

claimed-KeepsKeys : (now : ℕ) → KeepsKeys (claimed now)
claimed-KeepsKeys now = record { id = λ d. refl; event_id = λ d. refl }

after_claim-Consistent :
    (now id changed : ℕ) (s : Db)
    → Consistent s
    → (changed ≢ 0
        → (event_id : ℕ) × All (BelongsTo id event_id) s.deliveries
          × (some_of is_unfinished event_id s.deliveries ≡ true))
    → Consistent (final (after_claim reference now id changed) s)
unfolding after_claim find_by_id
after_claim-Consistent now id changed s c h = elim (ℕ_discrete changed 0) [
  | yes none' ↦ rw none' c
  | no some' ↦
      let (event_id, b, unfinished) = h some' in
      rw (ne→eqb changed 0 some') (
        start_event-Consistent now (with_relations reference s (find? (has_id id) s.deliveries)) s c
          (λ x e.
            let found = with_relations-delivery s _ e in
            let event : x.delivery.event_id ≡ event_id =
              All-find? (BelongsTo id event_id) (has_id id) s.deliveries b found
                (has_id-eq id x.delivery (find?-holds (has_id id) s.deliveries found)) in
            rw event unfinished))
]

-- The rows after `updateMany`: if one was changed, its event has an unfinished delivery.
abbrev claimed_rows : ℕ → ℕ → ℕ → List Delivery → List Delivery
claimed_rows now id n = patch (is_claimed_by id n) (claimed now)

claimed_rows-unfinished :
    (now id n : ℕ) (ds : List Delivery)
    → HasDistinctIds ds
    → count (is_claimed_by id n) ds ≢ 0
    → (event_id : ℕ) × All (BelongsTo id event_id) ds
      × All (BelongsTo id event_id) (claimed_rows now id n ds)
      × (some_of is_unfinished event_id ds ≡ true)
      × (some_of is_unfinished event_id (claimed_rows now id n ds) ≡ true)
claimed_rows-unfinished now id n ds h changed =
    let p = is_claimed_by id n in
    let k = claimed-KeepsKeys now in
    let (d, found) = find?-ne-none id p ds (is_claimed_by-id id n) changed in
    let b = find?-BelongsTo id ds h found in
    (
      d.event_id,
      b,
      BelongsTo-patch p (claimed now) id d.event_id ds k b,
      some_of-count is_unfinished id d.event_id p ds (is_claimed_by-id id n)
          (is_claimed_by-unfinished id n) changed b,
      some_of-patch_self is_unfinished id d.event_id p (claimed now) (is_claimed_by-id id n)
          k.event_id ds (λ x. refl) changed b,
    )

claimed_rows-Consistent :
    (now id n : ℕ) (s : Db)
    → Consistent s
    → Consistent (record s { deliveries = claimed_rows now id n s.deliveries })
claimed_rows-Consistent now id n s c =
    elim (ℕ_discrete (count (is_claimed_by id n) s.deliveries) 0) [
      | yes none' ↦ rw (patch_none (is_claimed_by id n) (claimed now) s.deliveries none') c
      | no some' ↦
          let (event_id, b, _, before, after') =
            claimed_rows-unfinished now id n s.deliveries c.distinct some' in
          change_and_keep (is_claimed_by id n) (claimed now) id event_id (is_claimed_by-id id n)
            (claimed-KeepsKeys now) s c b before after'
    ]

pub claim-Consistent :
    (now id n : ℕ) (s : Db)
    → Consistent s
    → Consistent (final (claim_for_processing reference now id n) s)
unfolding claim_for_processing
claim-Consistent now id n s c =
    let s' = record s { deliveries = claimed_rows now id n s.deliveries } in
    let changed = count (is_claimed_by id n) s.deliveries in
    settle-keeps Consistent s (after_claim reference now id changed s') c (
      after_claim-Consistent now id changed s' (claimed_rows-Consistent now id n s c) (λ some'.
        let (event_id, _, b, _, after') =
          claimed_rows-unfinished now id n s.deliveries c.distinct some' in
        (event_id, b, after')))
