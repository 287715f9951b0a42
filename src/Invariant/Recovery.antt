-- ===== src/Invariant/Recovery.antt =====
-- Recovering a stale delivery keeps the invariant.
use native.Mathlib.Decide.{ℕ_discrete}
use webhook_engine.Base.{
  settle-keeps, ne→eqb, patch_none, ℕ, ◌≡◌, refl, true, patch, count, final, arith,
}
use webhook_engine.Prisma.{reference}
use webhook_engine.Schema.{Delivery, Db}
use webhook_engine.Dispatcher.Policy.{is_unfinished}
use webhook_engine.Events.Maintenance.{
  is_stale_with_id, recovered, schedule_recovered, recover_stale_delivery,
}
use webhook_engine.Invariant.{Consistent}
use webhook_engine.Invariant.Summary.{
  some_of-count, find?-ne-none, some_of-patch_self, find?-BelongsTo,
}
use webhook_engine.Invariant.Change.{KeepsKeys, change_and_keep}
use webhook_engine.Invariant.Marks.{Consistent-outbox}

is_stale_with_id-id :
    (now age id : ℕ) (d : Delivery) → is_stale_with_id now age id d ≡ true → d.id ≡ id
is_stale_with_id-id now age id d h = ground arith

is_stale_with_id-unfinished :
    (now age id : ℕ) (d : Delivery)
    → is_stale_with_id now age id d ≡ true
    → is_unfinished d.status ≡ true
is_stale_with_id-unfinished now age id d h = ground arith

recovered_rows-Consistent :
    (now age id : ℕ) (s : Db)
    → Consistent s
    → Consistent
        (record s { deliveries = patch (is_stale_with_id now age id) (recovered now) s.deliveries })
recovered_rows-Consistent now age id s c =
    let p = is_stale_with_id now age id in
    let keyed = is_stale_with_id-id now age id in
    let k : KeepsKeys (recovered now) = record { id = λ d. refl; event_id = λ d. refl } in
    elim (ℕ_discrete (count p s.deliveries) 0) [
      | yes none' ↦ rw (patch_none p (recovered now) s.deliveries none') c
      | no some' ↦
          let (d, found) = find?-ne-none id p s.deliveries keyed some' in
          let b = find?-BelongsTo id s.deliveries c.distinct found in
          change_and_keep p (recovered now) id d.event_id keyed k s c b
            (some_of-count is_unfinished id d.event_id p s.deliveries keyed
              (is_stale_with_id-unfinished now age id) some' b)
            (some_of-patch_self is_unfinished id d.event_id p (recovered now) keyed k.event_id
              s.deliveries (λ x. refl) some' b)
    ]

schedule_recovered-Consistent :
    (now changed : ℕ) (d : Delivery) (s : Db)
    → Consistent s
    → Consistent (final (schedule_recovered reference now d changed) s)
unfolding schedule_recovered
schedule_recovered-Consistent now changed d s c = elim (ℕ_discrete changed 0) [
  | yes none' ↦ rw none' c
  | no some' ↦ rw (ne→eqb changed 0 some') (Consistent-outbox s _ c)
]

pub recover_stale_delivery-Consistent :
    (now age : ℕ) (d : Delivery) (s : Db)
    → Consistent s
    → Consistent (final (recover_stale_delivery reference now age d) s)
unfolding recover_stale_delivery
recover_stale_delivery-Consistent now age d s c =
    let p = is_stale_with_id now age d.id in
    let s' = record s { deliveries = patch p (recovered now) s.deliveries } in
    let n = count p s.deliveries in
    settle-keeps Consistent s (schedule_recovered reference now d n s') c
      (schedule_recovered-Consistent now n d s' (recovered_rows-Consistent now age d.id s c))
