-- ===== src/Events/Ingest/Once.antt =====
-- An event is accepted once per tenant and idempotency key: `createForTenant` of
-- src/events/infrastructure/persistence/prisma-events.repository.ts and
-- src/events/application/use-cases/ingest-event.use-case.ts
use webhook_engine.Base.{
  eq_iff, ℕ, ◌==◌, ◌≡◌, refl, true, Bool, Option, some, none, List, [], ◌∷◌, ◌++◌, find?, filter,
  String, ok, err, M, p2002, http_exception, sym, ap, subst, ◌∙◌, arith, Bool-cases, Option-cases,
  inl, inr,
}
use webhook_engine.Prisma.{Prisma, IsLawful, reference, lawful-eq}
use webhook_engine.Schema.{Tenant, WebhookEvent, Endpoint, Db}
use webhook_engine.World.{World}
use webhook_engine.Metrics
use webhook_engine.Events.Ingest.{
  IngestEventCommand, CreateWebhookEventResult, already_accepted, has_key, is_receiver,
  create_event, create_for_found, create_for_tenant, accept, handle_rejection, ingest, new_event,
}
use webhook_engine.Invariant.Ingest.{create_event-eq, after_ingest}

create_for_found-clash :
    (now : ℕ) (input : IngestEventCommand) (t : Tenant) (s : Db) {e : WebhookEvent}
    → find? (has_key input.tenant_id input.idempotency_key) s.events ≡ some e
    → create_for_found reference now input (some t) s ≡ (err p2002, s)
unfolding create_for_found create_event
create_for_found-clash now input t s clash = rw clash

find?-append_self :
    {A : Type 0} (p : A → Bool) (xs : List A) (a : A)
    → p a ≡ true
    → (b : A) × (find? p (xs ++ a ∷ []) ≡ some b)
find?-append_self p [] a h = (a, rw h)
find?-append_self p (x ∷ xs) a h = elim (Bool-cases (p x)) [
  | inl hit ↦ (x, rw hit)
  | inr miss ↦ let (b, e) = find?-append_self p xs a h in (b, rw miss e)
]

has_key-new_event :
    (now id : ℕ) (input : IngestEventCommand) (es : List Endpoint)
    → has_key input.tenant_id input.idempotency_key (new_event now id input es) ≡ true
has_key-new_event now id input es =
    ground (arith, eq_iff input.idempotency_key input.idempotency_key)

-- A call that gave a result has found the tenant and added the event.
create_for_found-ok :
    (now : ℕ) (input : IngestEventCommand) (o : Option Tenant) (s s' : Db)
    {result : CreateWebhookEventResult}
    → create_for_found reference now input o s ≡ (ok result, s')
    → (t : Tenant) × (o ≡ some t) × (es : List Endpoint) × (s' ≡ after_ingest now input es s)
unfolding create_for_found
create_for_found-ok now input none s s' h = absurd cc
create_for_found-ok now input (some t) s s' {result} h =
    let es = filter (is_receiver s.subscriptions t.id input.type) s.endpoints in
    elim (Option-cases (find? (has_key input.tenant_id input.idempotency_key) s.events)) [
      | inl fresh' ↦
          let h' = sym (create_event-eq now input es s fresh') ∙ h in
          (t, refl, es, sym (ap {B = Db} (λ r. r.1) h'))
      | inr (e, clash) ↦ let h' = sym (create_for_found-clash now input t s clash) ∙ h in absurd cc
    ]

-- The same tenant and key clash with an event that was added.
after_ingest-clash :
    (now now' : ℕ) (input : IngestEventCommand) (t : Tenant) (es : List Endpoint) (s : Db)
    → find? (λ (x : Tenant). x.id == input.tenant_id) s.tenants ≡ some t
    → (again : IngestEventCommand) → again.tenant_id ≡ input.tenant_id
    → again.idempotency_key ≡ input.idempotency_key
    → create_for_tenant reference now' again (after_ingest now input es s)
      ≡ (err p2002, after_ingest now input es s)
unfolding create_for_tenant
after_ingest-clash now now' input t es s found again same_tenant same_key =
    let s' = after_ingest now input es s in
    let (e, there) =
      find?-append_self (has_key input.tenant_id input.idempotency_key) s.events
        (new_event now s.next_id input es) (has_key-new_event now s.next_id input es) in
    let there' : find? (has_key again.tenant_id again.idempotency_key) s'.events ≡ some e =
      subst (λ (n : ℕ). find? (has_key n again.idempotency_key) s'.events ≡ some e)
        (sym same_tenant)
        (subst (λ (k : String). find? (has_key input.tenant_id k) s'.events ≡ some e) (sym same_key)
          there) in
    let found' : find? (λ (x : Tenant). x.id == again.tenant_id) s.tenants ≡ some t =
      subst (λ (n : ℕ). find? (λ (x : Tenant). x.id == n) s.tenants ≡ some t) (sym same_tenant)
        found in
    rw found' (create_for_found-clash now' again t s' there')

reference_once :
    (now now' : ℕ) (input again : IngestEventCommand) (s s' : Db)
    {result : CreateWebhookEventResult}
    → again.tenant_id ≡ input.tenant_id
    → again.idempotency_key ≡ input.idempotency_key
    → create_for_tenant reference now input s ≡ (ok result, s')
    → create_for_tenant reference now' again s' ≡ (err p2002, s')
unfolding create_for_tenant
reference_once now now' input again s s' same_tenant same_key first =
    let (t, found, es, e) =
      create_for_found-ok now input (find? (λ (x : Tenant). x.id == input.tenant_id) s.tenants) s s'
        first in
    subst (λ (u : Db). create_for_tenant reference now' again u ≡ (err p2002, u)) (sym e)
      (after_ingest-clash now now' input t es s found again same_tenant same_key)

-- `createForTenant` accepts an event at most once: after a call that gave a result, a call with the
-- same tenant and idempotency key fails on the unique constraint and leaves the database as it is,
-- whatever its type and payload.
pub create_for_tenant_once :
    (db : Prisma)
    → IsLawful db
    → (now now' : ℕ) (input again : IngestEventCommand) (s s' : Db)
      (result : CreateWebhookEventResult)
    → again.tenant_id ≡ input.tenant_id
    → again.idempotency_key ≡ input.idempotency_key
    → create_for_tenant db now input s ≡ (ok result, s')
    → create_for_tenant db now' again s' ≡ (err p2002, s')
create_for_tenant_once db law now now' input again s s' result same_tenant same_key first =
    rw (lawful-eq db law) (
      reference_once now now' input again s s' {result = result} same_tenant same_key (
        subst (λ (d : Prisma). create_for_tenant d now input s ≡ (ok result, s')) (lawful-eq db law)
          first))

-- An event whose tenant exists and whose idempotency key the tenant has used is answered as accepted
-- already: nothing is written, nothing is published, and the replay is counted.
pub ingest_again :
    {E : Type 0} (db : Prisma)
    → IsLawful db
    → (publish_pending : M (World E) (Unit {0})) (command : IngestEventCommand) (t : Tenant)
      (e : WebhookEvent) (w : World E)
    → find? (λ (x : Tenant). x.id == command.tenant_id) w.db.tenants ≡ some t
    → find? (has_key command.tenant_id command.idempotency_key) w.db.events ≡ some e
    → ingest db publish_pending command w ≡ (
      ok (already_accepted command.idempotency_key),
      record w { counters = Metrics.increment "events_idempotent_replays_total" 1 w.counters },
    )
unfolding ingest accept handle_rejection create_for_tenant
ingest_again db law publish_pending command t e w found clash =
    rw (lawful-eq db law, found, create_for_found-clash w.now command t w.db clash)

-- An event for a tenant that does not exist is answered with 404, and nothing changes.
pub ingest_unknown_tenant :
    {E : Type 0} (db : Prisma)
    → IsLawful db
    → (publish_pending : M (World E) (Unit {0})) (command : IngestEventCommand) (w : World E)
    → find? (λ (x : Tenant). x.id == command.tenant_id) w.db.tenants ≡ none
    → ingest db publish_pending command w ≡ (err (http_exception 404 "Tenant not found"), w)
unfolding ingest accept handle_rejection create_for_tenant create_for_found
ingest_unknown_tenant db law publish_pending command w missing = rw (lawful-eq db law, missing)
