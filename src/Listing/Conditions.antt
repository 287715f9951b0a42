-- ===== src/Listing/Conditions.antt =====
-- What the conditions of a listing's query ask of a row: `where` of
-- src/events/infrastructure/persistence/prisma-events.repository.ts and
-- src/deliveries/infrastructure/persistence/prisma-deliveries.repository.ts
use webhook_engine.Base.{
  eq_self, ℕ, ◌≤◌, ◌==◌, ◌≡◌, refl, ◌⊎◌, inl, inr, ◌↔◌, true, ◌&&◌, Option, none, some, List, [],
  ◌∷◌, String, str_eq, eq_iff, arith, Bool-cases,
}
use webhook_engine.Schema.{
  DeliveryStatus, EventStatus, done, no_subscribers, success, dlq, cancelled, WebhookEvent,
  Delivery,
}
use webhook_engine.Listing.{matches_text, matches_id, is_within}
use webhook_engine.Listing.Events.{
  EventListQuery, same_event_status, matches_event_status, matches_event,
}
use webhook_engine.Listing.Deliveries.{
  DeliveryListQuery, same_delivery_status, matches_delivery_status, belongs_to_tenant,
  matches_delivery,
}

-- A value that is asked for is the row's; a text that is empty asks for nothing.
abbrev pub IsAskedFor : {A : Type 0} → Option A → A → Type 0
IsAskedFor none a = Unit
IsAskedFor (some b) a = a ≡ b

abbrev pub IsTextAskedFor : Option String → String → Type 0
IsTextAskedFor none text' = Unit
IsTextAskedFor (some t) text' = (t ≡ "") ⊎ (text' ≡ t)

abbrev pub IsSince : Option ℕ → ℕ → Type 0
IsSince none time = Unit
IsSince (some from) time = from ≤ time

abbrev pub IsUntil : Option ℕ → ℕ → Type 0
IsUntil none time = Unit
IsUntil (some to) time = time ≤ to

is_within-IsSince :
    (from to : Option ℕ) (time : ℕ)
    → (is_within from to time ≡ true) ↔ (IsSince from time × IsUntil to time)
is_within-IsSince none none time = (λ h. (tt, tt), λ h. refl)
is_within-IsSince (some a) none time = (λ h. (ground arith, tt), λ (h, k). ground arith)
is_within-IsSince none (some b) time = (λ h. (tt, ground arith), λ (h, k). ground arith)
is_within-IsSince (some a) (some b) time =
    (λ h. (ground arith, ground arith), λ (h, k). ground arith)

matches_text-IsTextAskedFor :
    (asked : Option String) (text' : String)
    → (matches_text asked text' ≡ true) ↔ IsTextAskedFor asked text'
matches_text-IsTextAskedFor none text' = (λ h. tt, λ h. refl)
matches_text-IsTextAskedFor (some t) text' = (
  λ h. elim (Bool-cases (str_eq t "")) [
    | inl empty ↦ inl (ground (arith, eq_iff t ""))
    | inr full ↦ inr (ground (arith, eq_iff text' t))
  ],
  λ h. elim h [ inl e ↦ rw e refl | inr e ↦ ground (arith, eq_iff text' t) ],
)

matches_id-IsAskedFor :
    (asked : Option ℕ) (id : ℕ) → (matches_id asked id ≡ true) ↔ IsAskedFor asked id
matches_id-IsAskedFor none id = (λ h. tt, λ h. refl)
matches_id-IsAskedFor (some a) id = (λ h. ground arith, λ h. ground arith)

same_event_status-eq : (a b : EventStatus) → same_event_status a b ≡ true → a ≡ b
same_event_status-eq EventStatus.pending b h = ground (arith, h)
same_event_status-eq EventStatus.processing b h = ground (arith, h)
same_event_status-eq done b h = ground (arith, h)
same_event_status-eq EventStatus.failed b h = ground (arith, h)
same_event_status-eq no_subscribers b h = ground (arith, h)

same_event_status_self : (a : EventStatus) → same_event_status a a ≡ true
same_event_status_self EventStatus.pending = refl
same_event_status_self EventStatus.processing = refl
same_event_status_self done = refl
same_event_status_self EventStatus.failed = refl
same_event_status_self no_subscribers = refl

matches_event_status-IsAskedFor :
    (asked : Option EventStatus) (st : EventStatus)
    → (matches_event_status asked st ≡ true) ↔ IsAskedFor asked st
matches_event_status-IsAskedFor none st = (λ h. tt, λ h. refl)
matches_event_status-IsAskedFor (some a) st =
    (λ h. same_event_status-eq st a h, λ h. rw h (same_event_status_self a))

same_delivery_status-eq : (a b : DeliveryStatus) → same_delivery_status a b ≡ true → a ≡ b
same_delivery_status-eq DeliveryStatus.pending b h = ground (arith, h)
same_delivery_status-eq DeliveryStatus.processing b h = ground (arith, h)
same_delivery_status-eq success b h = ground (arith, h)
same_delivery_status-eq DeliveryStatus.failed b h = ground (arith, h)
same_delivery_status-eq dlq b h = ground (arith, h)
same_delivery_status-eq cancelled b h = ground (arith, h)

same_delivery_status_self : (a : DeliveryStatus) → same_delivery_status a a ≡ true
same_delivery_status_self DeliveryStatus.pending = refl
same_delivery_status_self DeliveryStatus.processing = refl
same_delivery_status_self success = refl
same_delivery_status_self DeliveryStatus.failed = refl
same_delivery_status_self dlq = refl
same_delivery_status_self cancelled = refl

matches_delivery_status-IsAskedFor :
    (asked : Option DeliveryStatus) (st : DeliveryStatus)
    → (matches_delivery_status asked st ≡ true) ↔ IsAskedFor asked st
matches_delivery_status-IsAskedFor none st = (λ h. tt, λ h. refl)
matches_delivery_status-IsAskedFor (some a) st =
    (λ h. same_delivery_status-eq st a h, λ h. rw h (same_delivery_status_self a))

-- An event that the query asks for.
pub record IsListedEvent (query : EventListQuery) (e : WebhookEvent) : Type 0 where
  pub tenant : e.tenant_id ≡ query.tenant_id
  pub status : IsAskedFor query.status e.status
  pub type : IsTextAskedFor query.type e.type
  pub since : IsSince query.from e.created_at
  pub until : IsUntil query.to e.created_at

pub matches_event-IsListedEvent :
    (query : EventListQuery) (e : WebhookEvent)
    → (matches_event query e ≡ true) ↔ IsListedEvent query e
unfolding matches_event
matches_event-IsListedEvent query e =
    let status = matches_event_status-IsAskedFor query.status e.status in
    let type' = matches_text-IsTextAskedFor query.type e.type in
    let time = is_within-IsSince query.from query.to e.created_at in
    (
      λ h.
          let (since, until) = time.0 (ground arith) in
          record {
            tenant = ground arith;
            status = status.0 (ground arith);
            type = type'.0 (ground arith);
            since = since;
            until = until;
          },
      λ k.
          rw
            (
              k.tenant,
              status.1 k.status,
              type'.1 k.type,
              time.1 (k.since, k.until),
              eq_self query.tenant_id,
            )
            refl,
    )

-- The event of the delivery is one of the tenant's.
abbrev pub IsOfTenant : List WebhookEvent → ℕ → Delivery → Type 0
IsOfTenant [] tenant_id d = ⊥
IsOfTenant (e ∷ events) tenant_id d =
    ((e.id ≡ d.event_id) × (e.tenant_id ≡ tenant_id)) ⊎ IsOfTenant events tenant_id d

belongs_to_tenant-IsOfTenant :
    (events : List WebhookEvent) (tenant_id : ℕ) (d : Delivery)
    → (belongs_to_tenant events tenant_id d ≡ true) ↔ IsOfTenant events tenant_id d
belongs_to_tenant-IsOfTenant [] tenant_id d = (λ h. absurd cc, λ h. absurd h)
belongs_to_tenant-IsOfTenant (e ∷ events) tenant_id d =
    let more = belongs_to_tenant-IsOfTenant events tenant_id d in
    (
      λ h. elim (Bool-cases (e.id == d.event_id && e.tenant_id == tenant_id)) [
        | inl here ↦ inl (ground arith, ground arith)
        | inr later ↦ inr (more.0 (rw later at h))
      ],
      λ h. elim h [
        | inl (i, t) ↦ rw (i, t, eq_self d.event_id, eq_self tenant_id) refl
        | inr k ↦ let found = more.1 k in ground (arith, found)
      ],
    )

-- A delivery that the query asks for, among those of the given events.
pub record IsListedDelivery (events : List WebhookEvent) (query : DeliveryListQuery) (d : Delivery)
    : Type 0 where
  pub tenant : IsOfTenant events query.tenant_id d
  pub status : IsAskedFor query.status d.status
  pub event : IsAskedFor query.event_id d.event_id
  pub endpoint : IsAskedFor query.endpoint_id d.endpoint_id
  pub since : IsSince query.from d.created_at
  pub until : IsUntil query.to d.created_at

pub matches_delivery-IsListedDelivery :
    (events : List WebhookEvent) (query : DeliveryListQuery) (d : Delivery)
    → (matches_delivery events query d ≡ true) ↔ IsListedDelivery events query d
unfolding matches_delivery
matches_delivery-IsListedDelivery events query d =
    let tenant = belongs_to_tenant-IsOfTenant events query.tenant_id d in
    let status = matches_delivery_status-IsAskedFor query.status d.status in
    let event = matches_id-IsAskedFor query.event_id d.event_id in
    let endpoint = matches_id-IsAskedFor query.endpoint_id d.endpoint_id in
    let time = is_within-IsSince query.from query.to d.created_at in
    (
      λ h.
          let (since, until) = time.0 (ground arith) in
          record {
            tenant = tenant.0 (ground arith);
            status = status.0 (ground arith);
            event = event.0 (ground arith);
            endpoint = endpoint.0 (ground arith);
            since = since;
            until = until;
          },
      λ k.
          rw
            (
              tenant.1 k.tenant,
              status.1 k.status,
              event.1 k.event,
              endpoint.1 k.endpoint,
              time.1 (k.since, k.until),
            )
            refl,
    )
