-- ===== src/Dispatcher/Exhaustion/Related.antt =====
-- A delivery with the rows that it refers to, and the claim of it: the claim of
-- src/dispatcher/infrastructure/persistence/prisma-dispatch-deliveries.repository.ts.
use webhook_engine.Base.{
  ℕ, ◌+◌, ◌==◌, if◌then◌else◌, ◌≡◌, refl, sym, ap, subst, ◌∙◌, Bool, true, false, some, List, [],
  ◌∷◌, find?, patch, count, ok, arith,
}
use webhook_engine.Prisma.{reference}
use webhook_engine.Schema.{
  EventStatus, Tenant, Endpoint, WebhookEvent, Delivery, DeliveryOutbox, Db,
}
use webhook_engine.Dispatcher.Repository.{
  has_id, event_has_id, is_claimed_by, claimed, set_event_status, claim_for_processing, after_claim,
  start_event, set_event, find_by_id,
}

find?-patch_by :
    {A : Type 0} (p q : A → Bool) (f : A → A) (xs : List A) {a : A}
    → ((x : A) → p (f x) ≡ p x)
    → find? p xs ≡ some a
    → find? p (patch q f xs) ≡ some (if q a then f a else a)
find?-patch_by p q f [] same h = absurd cc
find?-patch_by p q f (x ∷ xs) {a} same h =
    ground (arith, same x, find?-patch_by p q f xs {a = a} same)

count_of_found :
    {A : Type 0} (p q : A → Bool) (xs : List A) {a : A}
    → find? p xs ≡ some a
    → q a ≡ true
    → (count q xs == 0) ≡ false
count_of_found p q [] h hit = absurd cc
count_of_found p q (x ∷ xs) {a} h hit = ground (arith, count_of_found p q xs {a = a})

-- The delivery and the rows that it refers to are stored.
pub record IsRelated (id endpoint_id event_id : ℕ) (s : Db) : Type 0 where
  pub row : Delivery
  pub endpoint : Endpoint
  pub event : WebhookEvent
  pub tenant : Tenant
  pub has_row : find? (has_id id) s.deliveries ≡ some row
  pub endpoint_key : row.endpoint_id ≡ endpoint_id
  pub event_key : row.event_id ≡ event_id
  pub has_endpoint : find? (λ (e : Endpoint). e.id == endpoint_id) s.endpoints ≡ some endpoint
  pub has_event : find? (event_has_id event_id) s.events ≡ some event
  pub has_tenant : find? (λ (t : Tenant). t.id == event.tenant_id) s.tenants ≡ some tenant

-- A change of a row that leaves its keys alone.
pub record KeepsReferences (f : Delivery → Delivery) : Type 0 where
  pub id : (d : Delivery) → (f d).id ≡ d.id
  pub endpoint_id : (d : Delivery) → (f d).endpoint_id ≡ d.endpoint_id
  pub event_id : (d : Delivery) → (f d).event_id ≡ d.event_id

module _ {id endpoint_id event_id : ℕ} where
  -- A change of rows, with new outbox rows.
  pub IsRelated-patch :
      (p : Delivery → Bool) (f : Delivery → Delivery) (s : Db) (rows : List DeliveryOutbox) (n : ℕ)
      → KeepsReferences f
      → IsRelated id endpoint_id event_id s
      → IsRelated id endpoint_id event_id
          (record s { deliveries = patch p f s.deliveries; outbox = rows; next_id = n })
  IsRelated-patch p f s rows n k h =
      let same : (d : Delivery) → has_id id (f d) ≡ has_id id d = λ d. rw (k.id d) refl in
      record {
        row = if p h.row then f h.row else h.row;
        endpoint = h.endpoint;
        event = h.event;
        tenant = h.tenant;
        has_row = find?-patch_by (has_id id) p f s.deliveries same h.has_row;
        endpoint_key = ground (arith, k.endpoint_id h.row, h.endpoint_key);
        event_key = ground (arith, k.event_id h.row, h.event_key);
        has_endpoint = h.has_endpoint;
        has_event = h.has_event;
        has_tenant = h.has_tenant;
      }

  -- A change of the status of events.
  pub IsRelated-set_event :
      (now n : ℕ) (st : EventStatus) (s : Db)
      → IsRelated id endpoint_id event_id s
      → IsRelated id endpoint_id event_id
          (record s { events = patch (event_has_id n) (set_event_status now st) s.events })
  IsRelated-set_event now n st s h =
      let f = set_event_status now st in
      let event = if event_has_id n h.event then f h.event else h.event in
      let same : event.tenant_id ≡ h.event.tenant_id = ground arith in
      record {
        row = h.row;
        endpoint = h.endpoint;
        event = event;
        tenant = h.tenant;
        has_row = h.has_row;
        endpoint_key = h.endpoint_key;
        event_key = h.event_key;
        has_endpoint = h.has_endpoint;
        has_event =
            find?-patch_by (event_has_id event_id) (event_has_id n) f s.events (λ e. refl)
              h.has_event;
        has_tenant =
            subst (λ (m : ℕ). find? (λ (t : Tenant). t.id == m) s.tenants ≡ some h.tenant)
              (sym same) h.has_tenant;
      }

-- A claim of a delivery that waits for that attempt succeeds.
abbrev pub claimed_db : ℕ → ℕ → ℕ → ℕ → Db → Db
claimed_db now id k event_id s = record s {
  deliveries = patch (is_claimed_by id (k + 1)) (claimed now) s.deliveries;
  events = patch (event_has_id event_id) (set_event_status now EventStatus.processing) s.events;
}

pub claimed_found :
    (now id k : ℕ) (s : Db) {d : Delivery}
    → find? (has_id id) s.deliveries ≡ some d
    → is_claimed_by id (k + 1) d ≡ true
    → find? (has_id id) (patch (is_claimed_by id (k + 1)) (claimed now) s.deliveries)
      ≡ some (claimed now d)
claimed_found now id k s {d} found waits =
    find?-patch_by (has_id id) (is_claimed_by id (k + 1)) (claimed now) s.deliveries (λ x. refl)
      found
    ∙ ap (λ (b : Bool). some (if b then claimed now d else d)) waits

pub claim_waiting :
    (now id k : ℕ) (s : Db) {endpoint_id event_id : ℕ}
    → (rel : IsRelated id endpoint_id event_id s) → is_claimed_by id (k + 1) rel.row ≡ true
    → claim_for_processing reference now id (k + 1) s ≡ (
      ok (
          some (record {
            delivery = claimed now rel.row;
            endpoint = rel.endpoint;
            event = rel.event;
            tenant = rel.tenant;
          })),
      claimed_db now id k rel.row.event_id s,
    )
unfolding claim_for_processing after_claim find_by_id start_event set_event
claim_waiting now id k s rel waits =
    let has_endpoint =
      subst (λ (n : ℕ). find? (λ (e : Endpoint). e.id == n) s.endpoints ≡ some rel.endpoint)
        (sym rel.endpoint_key) rel.has_endpoint in
    let has_event =
      subst (λ (n : ℕ). find? (event_has_id n) s.events ≡ some rel.event) (sym rel.event_key)
        rel.has_event in
    rw
      (
        count_of_found (has_id id) (is_claimed_by id (k + 1)) s.deliveries rel.has_row waits,
        claimed_found now id k s rel.has_row waits,
        has_endpoint,
        has_event,
        rel.has_tenant,
        has_event,
      )
      refl

pub claimed-IsRelated :
    (now id k event : ℕ) (s : Db) {endpoint_id event_id : ℕ}
    → IsRelated id endpoint_id event_id s
    → IsRelated id endpoint_id event_id (claimed_db now id k event s)
claimed-IsRelated now id k event s h = IsRelated-set_event now event EventStatus.processing _ (
    IsRelated-patch (is_claimed_by id (k + 1)) (claimed now) s s.outbox s.next_id
      (record { id = λ x. refl; endpoint_id = λ x. refl; event_id = λ x. refl }) h)
