-- ===== src/Invariant/Ingest.antt =====
-- Accepting an event: the database afterwards, and the invariant.
use mathlib.Core.List.{append-nil}
use webhook_engine.Base.{
  ℕ, suc, ◌+◌, ◌≡◌, ◌≤◌, ◌<◌, Option, some, none, List, [], ◌∷◌, ◌++◌, map, find?, filter, length,
  any-append, All, All-append, final, arith, ◌∙◌, ◌==◌, ok, Option-cases, inl, inr,
}
use webhook_engine.Prisma.{reference}
use webhook_engine.Schema.{Tenant, Endpoint, Delivery, Db}
use webhook_engine.Dispatcher.Policy.{is_unfinished}
use webhook_engine.Events.Ingest.{
  create_event, create_for_found, create_for_tenant, new_event, IngestEventCommand, has_key,
  is_receiver,
}
use webhook_engine.Invariant.{AgreesWith, Consistent}
use webhook_engine.Invariant.Summary.{anything}
use webhook_engine.Invariant.NewRows.{
  delivery_rows, outbox_rows, deliveries_data-eq, outbox_data-eq, agree_append,
  HasDistinctIds-append, delivery_rows-fresh, delivery_rows-known, some_of_above,
}

module _ (now : ℕ) (input : IngestEventCommand) (es : List Endpoint) (s : Db) where
  abbrev pub rows_added : List Delivery
  rows_added = delivery_rows now s.next_id (suc s.next_id) es

  -- The database after an event was accepted for the endpoints `es`.
  abbrev pub after_ingest : Db
  after_ingest = record s {
    events = s.events ++ new_event now s.next_id input es ∷ [];
    deliveries = s.deliveries ++ rows_added;
    outbox = s.outbox ++ outbox_rows now (suc s.next_id + length es) rows_added;
    next_id = suc s.next_id + length es + length rows_added;
  }

pub create_event-eq :
    (now : ℕ) (input : IngestEventCommand) (es : List Endpoint) (s : Db)
    → find? (has_key input.tenant_id input.idempotency_key) s.events ≡ none
    → create_event reference now input es s ≡ (
      ok (record {
        event = new_event now s.next_id input es;
        delivery_ids = map (λ (d : Delivery). d.id) (rows_added now input es s);
      }),
      after_ingest now input es s,
    )
unfolding create_event delivery_rows outbox_rows
create_event-eq now input [] s fresh' =
    rw fresh' (ground (arith, append-nil s.deliveries, append-nil s.outbox))
create_event-eq now input (e ∷ es) s fresh' = rw fresh' (simp (deliveries_data-eq, outbox_data-eq))

initial_Agrees :
    (now n : ℕ) (input : IngestEventCommand) (es : List Endpoint) (ds : List Delivery)
    → All (λ d. d.event_id < n) ds
    → AgreesWith (ds ++ delivery_rows now n (suc n) es) (new_event now n input es)
unfolding delivery_rows
initial_Agrees now n input [] ds h =
    any-append _ ds [] ∙ ground (arith, some_of_above anything n ds h)
initial_Agrees now n input (e ∷ es) ds h =
    any-append _ ds (delivery_rows now n (suc n) (e ∷ es))
    ∙ ground (arith, some_of_above is_unfinished n ds h)

pub All-lt_mono :
    {A : Type 0} (f : A → ℕ) (n m : ℕ) (xs : List A)
    → n ≤ m
    → All (λ x. f x < n) xs
    → All (λ x. f x < m) xs
All-lt_mono f n m [] h a = tt
All-lt_mono f n m (x ∷ xs) h (a, as') = (omega arith, All-lt_mono f n m xs h as')

after_ingest-Consistent :
    (now : ℕ) (input : IngestEventCommand) (es : List Endpoint) (s : Db)
    → Consistent s
    → Consistent (after_ingest now input es s)
after_ingest-Consistent now input es s c =
    let n = s.next_id in
    let rows = rows_added now input es s in
    let m = suc n + length es + length rows in
    record {
      distinct =
          HasDistinctIds-append now n n (suc n) s.deliveries es c.fresh (omega arith) c.distinct;
      fresh =
          All-append (λ d. d.id < m) s.deliveries rows
            (All-lt_mono (λ d. d.id) n m s.deliveries (omega arith) c.fresh)
            (delivery_rows-fresh now n (suc n) m es (omega arith));
      known =
          All-append (λ d. d.event_id < m) s.deliveries rows
            (All-lt_mono (λ d. d.event_id) n m s.deliveries (omega arith) c.known)
            (delivery_rows-known now n (suc n) m es (omega arith));
      numbered =
          All-append (λ e. e.id < m) s.events (new_event now n input es ∷ [])
            (All-lt_mono (λ e. e.id) n m s.events (omega arith) c.numbered) (omega arith, tt);
      agree =
          All-append (AgreesWith (s.deliveries ++ rows)) s.events (new_event now n input es ∷ [])
            (agree_append now n n (suc n) s.deliveries es s.events c.numbered c.agree)
            (initial_Agrees now n input es s.deliveries c.known, tt);
    }

create_event-Consistent :
    (now : ℕ) (input : IngestEventCommand) (es : List Endpoint) (s : Db)
    → Consistent s
    → Consistent (final (create_event reference now input es) s)
unfolding create_event
create_event-Consistent now input es s c =
    elim (Option-cases (find? (has_key input.tenant_id input.idempotency_key) s.events)) [
      | inl fresh' ↦
          rw (create_event-eq now input es s fresh') (after_ingest-Consistent now input es s c)
      | inr (e, clash) ↦ rw clash c
    ]

create_for_found-Consistent :
    (now : ℕ) (input : IngestEventCommand) (o : Option Tenant) (s : Db)
    → Consistent s
    → Consistent (final (create_for_found reference now input o) s)
unfolding create_for_found
create_for_found-Consistent now input none s c = c
create_for_found-Consistent now input (some t) s c =
    create_event-Consistent now input
      (filter (is_receiver s.subscriptions t.id input.type) s.endpoints) s c

pub create_for_tenant-Consistent :
    (now : ℕ) (input : IngestEventCommand) (s : Db)
    → Consistent s
    → Consistent (final (create_for_tenant reference now input) s)
unfolding create_for_tenant
create_for_tenant-Consistent now input s c =
    create_for_found-Consistent now input
      (find? (λ (t : Tenant). t.id == input.tenant_id) s.tenants) s c
