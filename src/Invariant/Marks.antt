-- ===== src/Invariant/Marks.antt =====
-- Marking the outcome of an attempt keeps the invariant.
use webhook_engine.Base.{
  count_of_find?, All-lt-suc, suc, ℕ, ◌≡◌, true, some, List, find?, subst, sym, patch, All, final,
  arith, inl, inr, Option-cases,
}
use webhook_engine.Prisma.{reference}
use webhook_engine.Schema.{DeliveryOutbox, Delivery, Db}
use webhook_engine.Dispatcher.Policy.{is_unfinished}
use webhook_engine.Dispatcher.Repository.{reschedule, create_outbox, has_id, event_has_id, finish}
use webhook_engine.Invariant.{Consistent}
use webhook_engine.Invariant.Summary.{
  some_of-find?, calculate_event_status-Agrees, some_of-patch_self, BelongsTo, find?-BelongsTo,
}
use webhook_engine.Invariant.Change.{KeepsKeys, change_and_set, change_and_keep}

pub has_id-eq : (id : ℕ) (d : Delivery) → has_id id d ≡ true → d.id ≡ id
has_id-eq id d h = ground arith

pub finish-Consistent :
    (now id : ℕ) (f : Delivery → Delivery) (s : Db)
    → KeepsKeys f
    → Consistent s
    → Consistent (final (finish reference now id f) s)
unfolding finish
finish-Consistent now id f s k c = elim (Option-cases (find? (has_id id) s.deliveries)) [
  | inl missing ↦ rw missing c
  | inr (d, found) ↦ rw found (elim (Option-cases (find? (event_has_id (f d).event_id) s.events)) [
    | inl missing ↦ rw missing c
    | inr (e, here) ↦ rw here (
        change_and_set (has_id id) f id (f d).event_id (has_id-eq id) k s c
          (subst (λ (n : ℕ). All (BelongsTo id n) s.deliveries) (sym (k.event_id d))
            (find?-BelongsTo id s.deliveries c.distinct found))
          now _ (calculate_event_status-Agrees (f d).event_id (patch (has_id id) f s.deliveries)))
  ])
]

-- The invariant says nothing of the outbox, and identifiers only grow.
pub Consistent-outbox :
    (s : Db) (rows : List DeliveryOutbox)
    → Consistent s
    → Consistent (record s { outbox = rows; next_id = suc s.next_id })
Consistent-outbox s rows c = record {
  distinct = c.distinct;
  fresh = All-lt-suc (λ d. d.id) s.next_id s.deliveries c.fresh;
  known = All-lt-suc (λ d. d.event_id) s.next_id s.deliveries c.known;
  numbered = All-lt-suc (λ e. e.id) s.next_id s.events c.numbered;
  agree = c.agree;
}

-- A delivery that is unfinished goes to another unfinished status, and an outbox row is created.
pub reschedule-Consistent :
    (now id at attempt : ℕ) (f : Delivery → Delivery) (s : Db)
    → KeepsKeys f
    → ((d : Delivery) → is_unfinished (f d).status ≡ true)
    → ((d : Delivery) → find? (has_id id) s.deliveries ≡ some d → is_unfinished d.status ≡ true)
    → Consistent s
    → Consistent (final (reschedule reference now id f at attempt) s)
unfolding reschedule create_outbox
reschedule-Consistent now id at attempt f s k u before c =
    elim (Option-cases (find? (has_id id) s.deliveries)) [
      | inl missing ↦ rw missing c
      | inr (d, found) ↦ rw found (
          let b = find?-BelongsTo id s.deliveries c.distinct found in
          Consistent-outbox _ _ (
            change_and_keep (has_id id) f id d.event_id (has_id-eq id) k s c b
              (some_of-find? is_unfinished (has_id id) s.deliveries d found (before d found))
              (some_of-patch_self is_unfinished id d.event_id (has_id id) f (has_id-eq id)
                k.event_id s.deliveries u (count_of_find? (has_id id) s.deliveries found) b)))
    ]
