-- ===== src/Invariant/Lifecycle/Operations.antt =====
-- The operations on the database as moves of the deliveries.
use webhook_engine.Base.{
  ℕ, ◌+◌, ◌==◌, ◌≡◌, refl, subst, true, Bool-cases, inl, inr, Option, none, some, Option-cases,
  List, find?, filter, patch, count, final, settle-keeps, arith,
}
use webhook_engine.Prisma.{reference}
use webhook_engine.Schema.{DeliveryStatus, Tenant, Endpoint, Delivery, Db}
use webhook_engine.Dispatcher.Repository.{
  DispatchableDelivery, has_id, event_has_id, is_claimed_by, claimed, with_relations, start_event,
  after_claim, claim_for_processing, finish, create_outbox, reschedule,
}
use webhook_engine.Events.Ingest.{
  IngestEventCommand, has_key, is_receiver, create_event, create_for_found, create_for_tenant,
}
use webhook_engine.Events.Maintenance.{
  is_stale_with_id, recovered, schedule_recovered, recover_stale_delivery,
}
use webhook_engine.Deliveries.{reset, reset_for_replay}
use webhook_engine.Invariant.Marks.{has_id-eq}
use webhook_engine.Invariant.Ingest.{rows_added, create_event-eq}
use webhook_engine.Invariant.Lifecycle

-- The rows of `t` are those of `s` after a move by the action each, and new ones.
abbrev pub Advances : Lifecycle.Action → Db → Db → Type 0
Advances a s t = Lifecycle.Refines (Lifecycle.Moved a) s.deliveries t.deliveries

stays : (a : Lifecycle.Action) (d : Delivery) → Lifecycle.Moved a d d
stays a d = (refl, Lifecycle.Move.stay a (Lifecycle.life d))

pub Advances-self : (a : Lifecycle.Action) (s : Db) → Advances a s s
Advances-self a s = Lifecycle.Refines-self (Lifecycle.Moved a) (stays a) s.deliveries

-- A change of the rows with an identifier.
patch-Advances :
    (a : Lifecycle.Action) (id : ℕ) (f : Delivery → Delivery) (ds : List Delivery)
    → ((d : Delivery) → d.id ≡ id → Lifecycle.Moved a d (f d))
    → Lifecycle.Refines (Lifecycle.Moved a) ds (patch (has_id id) f ds)
patch-Advances a id f ds moved =
    Lifecycle.Refines-patch (Lifecycle.Moved a) (stays a) (has_id id) f ds
      (λ d h. moved d (has_id-eq id d h))

pub finish-Advances :
    (a : Lifecycle.Action) (now id : ℕ) (f : Delivery → Delivery) (s : Db)
    → ((d : Delivery) → d.id ≡ id → Lifecycle.Moved a d (f d))
    → Advances a s (final (finish reference now id f) s)
unfolding finish
finish-Advances a now id f s moved = elim (Option-cases (find? (has_id id) s.deliveries)) [
  | inl missing ↦ rw missing (Advances-self a s)
  | inr (d, found) ↦ rw found (elim (Option-cases (find? (event_has_id (f d).event_id) s.events)) [
    | inl missing ↦ rw missing (Advances-self a s)
    | inr (e, here) ↦ rw here (patch-Advances a id f s.deliveries moved)
  ])
]

pub reschedule-Advances :
    (a : Lifecycle.Action) (now id at attempt : ℕ) (f : Delivery → Delivery) (s : Db)
    → ((d : Delivery) → d.id ≡ id → Lifecycle.Moved a d (f d))
    → Advances a s (final (reschedule reference now id f at attempt) s)
unfolding reschedule create_outbox
reschedule-Advances a now id at attempt f s moved =
    elim (Option-cases (find? (has_id id) s.deliveries)) [
      | inl missing ↦ rw missing (Advances-self a s)
      | inr (d, found) ↦ rw found (patch-Advances a id f s.deliveries moved)
    ]

start_event_deliveries :
    (now : ℕ) (o : Option DispatchableDelivery) (s : Db)
    → (start_event reference now o s).1.deliveries ≡ s.deliveries
unfolding start_event
start_event_deliveries now none s = refl
start_event_deliveries now (some d) s =
    elim (Option-cases (find? (event_has_id d.delivery.event_id) s.events)) [
      | inl missing ↦ rw missing refl
      | inr (e, here) ↦ rw here refl
    ]

after_claim_deliveries :
    (now id changed : ℕ) (s : Db)
    → (after_claim reference now id changed s).1.deliveries ≡ s.deliveries
unfolding after_claim
after_claim_deliveries now id changed s = elim (Bool-cases (changed == 0)) [
  | inl none' ↦ rw none' refl
  | inr some' ↦
      rw some'
        (start_event_deliveries now (with_relations reference s (find? (has_id id) s.deliveries)) s)
]

claimed-Moved :
    (now id n : ℕ) (d : Delivery)
    → is_claimed_by id n d ≡ true
    → Lifecycle.Moved (Lifecycle.Action.claim id n) d (claimed now d)
claimed-Moved now id n d h =
    let key : d.id ≡ id = ground arith in
    let next : d.attempts + 1 ≡ n = ground arith in
    (
      refl,
      subst
          (λ (a : Lifecycle.Action).
            Lifecycle.Move d.id a (Lifecycle.life d) (Lifecycle.life (claimed now d)))
          (λ i. Lifecycle.Action.claim (key i) (next i))
          (Lifecycle.Move.claim d.status d.attempts (ground arith)),
    )

pub claim-Advances :
    (now id n : ℕ) (s : Db)
    → Advances (Lifecycle.Action.claim id n) s (final (claim_for_processing reference now id n) s)
unfolding claim_for_processing
claim-Advances now id n s =
    let a = Lifecycle.Action.claim id n in
    let p = is_claimed_by id n in
    let s' = record s { deliveries = patch p (claimed now) s.deliveries } in
    let changed = count p s.deliveries in
    settle-keeps (Advances a s) s (after_claim reference now id changed s') (Advances-self a s) (
      rw (after_claim_deliveries now id changed s') (
        Lifecycle.Refines-patch (Lifecycle.Moved a) (stays a) p (claimed now) s.deliveries
          (claimed-Moved now id n)))

schedule_recovered_deliveries :
    (now changed : ℕ) (d : Delivery) (s : Db)
    → (schedule_recovered reference now d changed s).1.deliveries ≡ s.deliveries
unfolding schedule_recovered create_outbox
schedule_recovered_deliveries now changed d s = elim (Bool-cases (changed == 0)) [
  | inl none' ↦ rw none' refl
  | inr some' ↦ rw some' refl
]

recovered-Moved :
    (now age id : ℕ) (d : Delivery)
    → is_stale_with_id now age id d ≡ true
    → Lifecycle.Moved (Lifecycle.Action.postpone id DeliveryStatus.failed) d (recovered now d)
recovered-Moved now age id d h =
    let key : d.id ≡ id = ground arith in
    (
      refl,
      subst
          (λ (n : ℕ).
            Lifecycle.Move d.id (Lifecycle.Action.postpone n DeliveryStatus.failed)
              (Lifecycle.life d) (Lifecycle.life (recovered now d)))
          key (Lifecycle.Move.postpone d.status DeliveryStatus.failed d.attempts refl),
    )

pub recover-Advances :
    (now age : ℕ) (d : Delivery) (s : Db)
    → Advances
        (Lifecycle.Action.postpone d.id DeliveryStatus.failed)
        s
        (final (recover_stale_delivery reference now age d) s)
unfolding recover_stale_delivery
recover-Advances now age d s =
    let a = Lifecycle.Action.postpone d.id DeliveryStatus.failed in
    let p = is_stale_with_id now age d.id in
    let s' = record s { deliveries = patch p (recovered now) s.deliveries } in
    let changed = count p s.deliveries in
    settle-keeps (Advances a s) s (schedule_recovered reference now d changed s')
      (Advances-self a s)
      (rw (schedule_recovered_deliveries now changed d s') (
        Lifecycle.Refines-patch (Lifecycle.Moved a) (stays a) p (recovered now) s.deliveries
          (recovered-Moved now age d.id)))

create_event-Advances :
    (now : ℕ) (input : IngestEventCommand) (es : List Endpoint) (s : Db)
    → Advances Lifecycle.Action.leave s (final (create_event reference now input es) s)
unfolding create_event
create_event-Advances now input es s =
    elim (Option-cases (find? (has_key input.tenant_id input.idempotency_key) s.events)) [
      | inl fresh ↦ rw (create_event-eq now input es s fresh) (
          Lifecycle.Refines-append (Lifecycle.Moved Lifecycle.Action.leave)
            (stays Lifecycle.Action.leave) s.deliveries (rows_added now input es s))
      | inr (e, clash) ↦ rw clash (Advances-self Lifecycle.Action.leave s)
    ]

create_for_found-Advances :
    (now : ℕ) (input : IngestEventCommand) (o : Option Tenant) (s : Db)
    → Advances Lifecycle.Action.leave s (final (create_for_found reference now input o) s)
unfolding create_for_found
create_for_found-Advances now input none s = Advances-self Lifecycle.Action.leave s
create_for_found-Advances now input (some t) s =
    create_event-Advances now input
      (filter (is_receiver s.subscriptions t.id input.type) s.endpoints) s

pub ingest-Advances :
    (now : ℕ) (input : IngestEventCommand) (s : Db)
    → Advances Lifecycle.Action.leave s (final (create_for_tenant reference now input) s)
unfolding create_for_tenant
ingest-Advances now input s =
    create_for_found-Advances now input (find? (λ (t : Tenant). t.id == input.tenant_id) s.tenants)
      s

pub reset_for_replay-Advances :
    (now id : ℕ) (s : Db)
    → Advances (Lifecycle.Action.reset id) s (final (reset_for_replay reference now id) s)
unfolding reset_for_replay
reset_for_replay-Advances now id s =
    let a = Lifecycle.Action.reset id in
    let moved = patch-Advances a id (reset now) s.deliveries (λ d key. (
      refl,
      subst
          (λ (n : ℕ).
            Lifecycle.Move d.id (Lifecycle.Action.reset n) (Lifecycle.life d)
              (Lifecycle.life (reset now d)))
          key (Lifecycle.Move.reset d.status d.attempts),
    )) in
    elim (Option-cases (find? (has_id id) s.deliveries)) [
      | inl missing ↦ rw missing (Advances-self a s)
      | inr (x, here) ↦ rw here (elim (Option-cases (find? (event_has_id x.event_id) s.events)) [
        | inl missing ↦ rw missing (Advances-self a s)
        | inr (e, there) ↦ rw there moved
      ])
    ]
