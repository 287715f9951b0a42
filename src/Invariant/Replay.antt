-- ===== src/Invariant/Replay.antt =====
-- The reset for a replay keeps the invariant, whatever the delivery's status is.
use webhook_engine.Base.{ℕ, refl, find?, final, inl, inr, Option-cases, count_of_find?}
use webhook_engine.Prisma.{reference}
use webhook_engine.Schema.{EventStatus, Db}
use webhook_engine.Dispatcher.Policy.{is_unfinished}
use webhook_engine.Dispatcher.Repository.{has_id, event_has_id}
use webhook_engine.Deliveries.{reset, reset_for_replay}
use webhook_engine.Invariant.{Consistent}
use webhook_engine.Invariant.Summary.{some_of-patch_self, find?-BelongsTo}
use webhook_engine.Invariant.Change.{KeepsKeys, change_and_set}
use webhook_engine.Invariant.Marks.{has_id-eq, Consistent-outbox}

pub reset_for_replay-Consistent :
    (now id : ℕ) (s : Db) → Consistent s → Consistent (final (reset_for_replay reference now id) s)
unfolding reset_for_replay
reset_for_replay-Consistent now id s c = elim (Option-cases (find? (has_id id) s.deliveries)) [
  | inl missing ↦ rw missing c
  | inr (d, found) ↦ rw found (elim (Option-cases (find? (event_has_id d.event_id) s.events)) [
    | inl missing ↦ rw missing c
    | inr (e, here) ↦ rw here (
        let k : KeepsKeys (reset now) = record { id = λ x. refl; event_id = λ x. refl } in
        let b = find?-BelongsTo id s.deliveries c.distinct found in
        Consistent-outbox _ _ (
          change_and_set (has_id id) (reset now) id d.event_id (has_id-eq id) k s c b now
            EventStatus.processing
            (some_of-patch_self is_unfinished id d.event_id (has_id id) (reset now) (has_id-eq id)
              k.event_id s.deliveries (λ x. refl) (count_of_find? (has_id id) s.deliveries found)
              b)))
  ])
]
