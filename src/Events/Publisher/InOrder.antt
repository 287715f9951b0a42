-- ===== src/Events/Publisher/InOrder.antt =====
-- The loop of the outbox publisher: `publishPending` of
-- src/events/infrastructure/queue/delivery-outbox-publisher.service.ts
use webhook_engine.Base.{
  ℕ, ◌≡◌, refl, sym, ap, ◌∙◌, ◌⊎◌, inl, inr, List, [], ◌∷◌, ◌++◌, All, filter, patch, take, M,
  Error, Result, ok, err, pure, caught, ◌>>◌,
}
use webhook_engine.Prisma.{Prisma, IsLawful, reference, lawful-eq}
use webhook_engine.Schema.{DeliveryOutbox, Db}
use webhook_engine.World.{World}
use webhook_engine.Events.Queue.{Queue}
use webhook_engine.Events.Maintenance.{outbox_has_id}
use webhook_engine.Events.Publisher.Marked.{
  job_for, published_row, refused_row, waits_at, mark_all, IsStored, mark_all-none, mark_all-more,
  any-find?, Stored-patch, All-filter, All-take, All-Stored, filter_due,
}
use webhook_engine.Events.Publisher.{
  PublisherServices, publish_row, record_failure, publish_rows, find_due, publish_due,
}

-- The jobs of the rows go to the queue, one after the other.
abbrev pub enqueue_all : {E : Type 0} → Queue E → List DeliveryOutbox → M E (Unit {0})
enqueue_all q [] = pure tt
enqueue_all q (row ∷ rows) = q.add (job_for row) >> enqueue_all q rows

-- The loop came to its end, from the database and the queue before it.
pub record IsComplete {E : Type 0} (svc : PublisherServices E) (now : ℕ) (s : Db) (e : E)
    (jobs : List DeliveryOutbox) (r : Result (Unit {0}) × World E) : Type 0 where
  pub answer : r.0 ≡ ok tt
  pub queued : enqueue_all svc.queue jobs e ≡ (ok tt, r.1.external)
  pub marked : r.1.db ≡ record s { outbox = mark_all now jobs s.outbox }

-- The queue refused a job.
pub record IsStopped {E : Type 0} (svc : PublisherServices E) (now : ℕ) (s : Db) (e : E)
    (jobs : List DeliveryOutbox) (r : Result (Unit {0}) × World E) : Type 0 where
  pub before : List DeliveryOutbox
  pub row : DeliveryOutbox
  pub after : List DeliveryOutbox
  pub split : jobs ≡ before ++ row ∷ after
  pub error : Error
  pub answer : r.0 ≡ err error
  pub between : E
  pub queued : enqueue_all svc.queue before e ≡ (ok tt, between)
  pub refused : svc.queue.add (job_for row) between ≡ (err error, r.1.external)
  pub marked : r.1.db ≡ record s {
    outbox =
        patch
          (outbox_has_id row.id)
          (refused_row (svc.error_text error))
          (mark_all now before s.outbox);
  }

Result-cases :
    {S A : Type 0} (r : Result A × S)
    → ((a : A) × (s : S) × (r ≡ (ok a, s))) ⊎ ((e : Error) × (s : S) × (r ≡ (err e, s)))
Result-cases (ok a, s) = inl (a, s, refl)
Result-cases (err e, s) = inr (e, s, refl)

abbrev marked_db : DeliveryOutbox → ℕ → Db → Db
marked_db row now s = record s {
  outbox = patch (outbox_has_id row.id) (published_row now) s.outbox;
}

module _ {E : Type 0} (svc : PublisherServices E) where
  publish_row-taken :
      (row : DeliveryOutbox) (w : World E) (e : E)
      → svc.queue.add (job_for row) w.external ≡ (ok tt, e)
      → IsStored w.db.outbox row
      → caught (record_failure reference svc row) (publish_row reference svc row w)
        ≡ (ok tt, record w { db = marked_db row w.now w.db; external = e })
  unfolding publish_row
  publish_row-taken row w e taken stored =
      let (x, found) = any-find? (outbox_has_id row.id) w.db.outbox stored in rw (taken, found) refl

  publish_row-refused :
      (row : DeliveryOutbox) (w : World E) (error : Error) (e : E)
      → svc.queue.add (job_for row) w.external ≡ (err error, e)
      → IsStored w.db.outbox row
      → caught (record_failure reference svc row) (publish_row reference svc row w) ≡ (
        err error,
        record w {
          db = record w.db {
            outbox = patch (outbox_has_id row.id) (refused_row (svc.error_text error)) w.db.outbox;
          };
          external = e;
        },
      )
  unfolding publish_row record_failure
  publish_row-refused row w error e refused stored =
      let (x, found) = any-find? (outbox_has_id row.id) w.db.outbox stored in
      rw (refused, found) refl

  -- One more row before the others.
  IsComplete-more :
      (row : DeliveryOutbox) (rows : List DeliveryOutbox) (now : ℕ) (s : Db) (e : E) {e' : E}
      (r : Result (Unit {0}) × World E)
      → svc.queue.add (job_for row) e ≡ (ok tt, e')
      → IsComplete svc now (marked_db row now s) e' rows r
      → IsComplete svc now s e (row ∷ rows) r
  IsComplete-more row rows now s e r taken h = record {
    answer = h.answer;
    queued = rw taken h.queued;
    marked = h.marked ∙ ap (λ xs. record s { outbox = xs }) (mark_all-more now row rows s.outbox);
  }

  IsStopped-more :
      (row : DeliveryOutbox) (rows : List DeliveryOutbox) (now : ℕ) (s : Db) (e : E) {e' : E}
      (r : Result (Unit {0}) × World E)
      → svc.queue.add (job_for row) e ≡ (ok tt, e')
      → IsStopped svc now (marked_db row now s) e' rows r
      → IsStopped svc now s e (row ∷ rows) r
  IsStopped-more row rows now s e r taken h = record {
    before = row ∷ h.before;
    row = h.row;
    after = h.after;
    split = ap (λ xs. row ∷ xs) h.split;
    error = h.error;
    answer = h.answer;
    between = h.between;
    queued = rw taken h.queued;
    refused = h.refused;
    marked =
        h.marked
        ∙ ap
            (λ xs. record s {
              outbox = patch (outbox_has_id h.row.id) (refused_row (svc.error_text h.error)) xs;
            })
            (mark_all-more now row h.before s.outbox);
  }

  publish_rows-InOrder :
      (jobs : List DeliveryOutbox) (w : World E)
      → All (IsStored w.db.outbox) jobs
      → IsComplete svc w.now w.db w.external jobs (publish_rows reference svc jobs w)
        ⊎ IsStopped svc w.now w.db w.external jobs (publish_rows reference svc jobs w)
  unfolding publish_rows
  publish_rows-InOrder [] w h = inl (record {
    answer = refl;
    queued = refl;
    marked = ap (λ xs. record w.db { outbox = xs }) (sym (mark_all-none w.now w.db.outbox));
  })
  publish_rows-InOrder (row ∷ rows) w h =
      elim (Result-cases (svc.queue.add (job_for row) w.external)) [
        | inl (u, e, taken) ↦
            rw (publish_row-taken row w e taken h.0)
              (elim (publish_rows-InOrder rows
                (record w { db = marked_db row w.now w.db; external = e })
                (Stored-patch (outbox_has_id row.id) w.now w.db.outbox rows h.1)) [
                  | inl all ↦ inl (IsComplete-more row rows w.now w.db w.external _ taken all)
                  | inr stop ↦ inr (IsStopped-more row rows w.now w.db w.external _ taken stop)
                ])
        | inr (error, e, refused) ↦ rw (publish_row-refused row w error e refused h.0) (
            inr (record {
              before = [];
              row = row;
              after = rows;
              split = refl;
              error = error;
              answer = refl;
              between = w.external;
              queued = refl;
              refused = refused;
              marked =
                  ap
                    (λ xs. record w.db {
                      outbox = patch (outbox_has_id row.id) (refused_row (svc.error_text error)) xs;
                    })
                    (sym (mark_all-none w.now w.db.outbox));
            }))
      ]

-- The database's sorting returns only rows that it is given.
abbrev pub IsSelection : (List DeliveryOutbox → List DeliveryOutbox) → Type 1
IsSelection f = (P : DeliveryOutbox → Type 0) (xs : List DeliveryOutbox) → All P xs → All P (f xs)

-- For a lawful database, whose sorting returns only rows that it is given: a round of the loop takes the
-- first hundred, in the sorting's order, of the rows that are not published and whose time has come, and
-- hands the queue a job for each in that order, with the row's delivery and attempt number, named after
-- the row and the number of its refusals. Either the queue takes all of them, and exactly these rows get
-- the present as the time of publication, and no error; or it refuses one, and then exactly the rows
-- before that one do, the refused row gets the text of the failure and one more refusal, no later job is
-- handed over, and the round fails with the queue's failure. Nothing else of the database changes.
pub publish_due-InOrder :
    {E : Type 0} (db : Prisma)
    → IsLawful db
    → (svc : PublisherServices E) → IsSelection svc.order_by_created_at
    → (w : World E) (jobs : List DeliveryOutbox)
    → jobs ≡ take 100 (svc.order_by_created_at (filter (waits_at w.now) w.db.outbox))
    → IsComplete svc w.now w.db w.external jobs (publish_due db svc w)
      ⊎ IsStopped svc w.now w.db w.external jobs (publish_due db svc w)
unfolding publish_due find_due
publish_due-InOrder db law svc sel w jobs h =
    rw (lawful-eq db law, filter_due w.now w.db.outbox, h)
      (publish_rows-InOrder svc _ w
        (All-take _ 100 _ (sel _ _ (All-filter _ (waits_at w.now) _ (All-Stored w.db.outbox)))))
