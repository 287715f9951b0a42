-- ===== src/Listing/Pages.antt =====
-- All pages of events and of deliveries: `findAll` of
-- src/events/infrastructure/persistence/prisma-events.repository.ts and
-- src/deliveries/infrastructure/persistence/prisma-deliveries.repository.ts
use webhook_engine.Base.{
  ℕ, zero, suc, ◌-◌, ◌*◌, ◌<◌, ◌≡◌, refl, ◌≢◌, ◌↔◌, true, List, [], ◌∷◌, map, filter, length, take,
  drop, ltb, arith, Result, ok, err,
}
use webhook_engine.Prisma.{Prisma, IsLawful, reference, lawful-eq}
use webhook_engine.Schema.{WebhookEvent, Delivery, DeliveryStatus, Db}
use webhook_engine.Listing.{pagination, page_of}
use webhook_engine.Listing.Arranged.{HasDistinctTimes, IsArranged}
use webhook_engine.Listing.Events.{
  EventListQuery, PaginatedEvents, EventView, url_of, event_view, matches_event, find_all_events,
}
use webhook_engine.Listing.Deliveries.{
  DeliveryListQuery, PaginatedDeliveries, DeliveryView, delivery_view, matches_delivery,
  find_all_deliveries,
}
use webhook_engine.Listing.Conditions.{
  IsListedEvent, IsListedDelivery, matches_event-IsListedEvent, matches_delivery-IsListedDelivery,
}
use webhook_engine.Listing.Walk.{walk, walk-IsArranged}

abbrev pub events_of : Result PaginatedEvents × Db → List (EventView (ℕ × DeliveryStatus))
events_of (ok page, s) = page.events
events_of (err e, s) = []

abbrev pub deliveries_of : Result PaginatedDeliveries × Db → List DeliveryView
deliveries_of (ok page, s) = page.deliveries
deliveries_of (err e, s) = []

-- Walking through all pages of a tenant's events, up to `totalPages`, gives each event that matches the
-- query exactly once, the newest first, if the limit is positive and the matching events have different
-- times of creation; each query may arrange the rows that it finds in any way that has the newest first.
-- The matching events are those of the tenant with the status and type that are asked for, if any, and
-- created within the times that are given.
pub find_all_events_pages :
    (db : Prisma)
    → IsLawful db
    → (order : EventListQuery → List WebhookEvent → List WebhookEvent) (query : EventListQuery)
      (s : Db)
    → 0 < query.limit
    → HasDistinctTimes (λ (e : WebhookEvent). e.created_at) (filter (matches_event query) s.events)
    → ((page : ℕ)
        → IsArranged
            (λ (e : WebhookEvent). e.created_at)
            (filter (matches_event query) s.events)
            (order (record query { page = page }) (filter (matches_event query) s.events)))
    → let found = filter (matches_event query) s.events in
      let walked =
        map
          (λ (v : EventView (ℕ × DeliveryStatus)). v.event)
          (walk
            (λ page. events_of (find_all_events db order (record query { page = page }) s))
            (pagination 1 query.limit (length found)).total_pages) in
      IsArranged (λ (e : WebhookEvent). e.created_at) found walked
      × ((e : WebhookEvent) → (matches_event query e ≡ true) ↔ IsListedEvent query e)
unfolding find_all_events matches_event event_view
find_all_events_pages db law order query s pos distinct arranged =
    let found = filter (matches_event query) s.events in
    let walked =
      walk-IsArranged (event_view reference (λ (d : Delivery). (d.id, d.status)) url_of s)
        (λ v. v.event) (λ e. e.created_at) query.limit found
        (λ page. order (record query { page = page }) found) (λ e. refl) pos distinct arranged in
    rw (lawful-eq db law) (walked, matches_event-IsListedEvent query)

-- Walking through all pages of a tenant's deliveries, up to `totalPages`, gives each delivery that
-- matches the query exactly once, the newest first, if the limit is positive and the matching deliveries
-- have different times of creation; each query may arrange the rows that it finds in any way that has the
-- newest first. The matching deliveries are those of the tenant's events with the status, event and
-- endpoint that are asked for, if any, and created within the times that are given.
pub find_all_deliveries_pages :
    (db : Prisma)
    → IsLawful db
    → (order : DeliveryListQuery → List Delivery → List Delivery) (query : DeliveryListQuery)
      (s : Db)
    → 0 < query.limit
    → HasDistinctTimes
        (λ (d : Delivery). d.created_at)
        (filter (matches_delivery s.events query) s.deliveries)
    → ((page : ℕ)
        → IsArranged
            (λ (d : Delivery). d.created_at)
            (filter (matches_delivery s.events query) s.deliveries)
            (order
              (record query { page = page })
              (filter (matches_delivery s.events query) s.deliveries)))
    → let found = filter (matches_delivery s.events query) s.deliveries in
      let walked =
        map
          (λ (v : DeliveryView). v.delivery)
          (walk
            (λ page. deliveries_of (find_all_deliveries db order (record query { page = page }) s))
            (pagination 1 query.limit (length found)).total_pages) in
      IsArranged (λ (d : Delivery). d.created_at) found walked
      × ((d : Delivery)
          → (matches_delivery s.events query d ≡ true) ↔ IsListedDelivery s.events query d)
unfolding find_all_deliveries matches_delivery delivery_view
find_all_deliveries_pages db law order query s pos distinct arranged =
    let found = filter (matches_delivery s.events query) s.deliveries in
    let walked =
      walk-IsArranged (delivery_view reference s) (λ v. v.delivery) (λ d. d.created_at) query.limit
        found (λ page. order (record query { page = page }) found) (λ d. refl) pos distinct
        arranged in
    rw (lawful-eq db law) (walked, matches_delivery-IsListedDelivery s.events query)

drop_none_iff : {A : Type 0} (n : ℕ) (xs : List A) → (n < length xs) ↔ (drop n xs ≢ [])
drop_none_iff zero [] = (λ h. absurd (omega arith), λ h. absurd (h refl))
drop_none_iff zero (x ∷ xs) = (λ h e. cc, λ h. omega arith)
drop_none_iff (suc n) [] = (λ h. absurd (omega arith), λ h. absurd (h refl))
drop_none_iff (suc n) (x ∷ xs) =
    let ih = drop_none_iff n xs in (λ h. ih.0 (omega arith), λ h. omega (arith, ih.1 h))

take_none_iff : {A : Type 0} (n : ℕ) (xs : List A) → 0 < n → (xs ≢ []) ↔ (take n xs ≢ [])
take_none_iff zero xs h = absurd (omega arith)
take_none_iff (suc n) [] h = (λ ne. absurd (ne refl), λ ne. absurd (ne refl))
take_none_iff (suc n) (x ∷ xs) h = (λ ne e. cc, λ ne e. cc)

ltb_iff : (a b : ℕ) → (ltb a b ≡ true) ↔ (a < b)
ltb_iff a b = ground arith

-- `hasNext` of a page says whether the page after it has any row, if the limit is positive.
pub has_next_iff :
    {A : Type 0} (page limit : ℕ) (rows : List A)
    → 0 < limit
    → ((pagination page limit (length rows)).has_next ≡ true) ↔ (page_of (suc page) limit rows ≢ [])
unfolding pagination page_of
has_next_iff page limit rows pos =
    let start : suc page - 1 ≡ page = omega arith in
    let (a, b) = ltb_iff (page * limit) (length rows) in
    let (c, d) = drop_none_iff (page * limit) rows in
    let (e, f) = take_none_iff limit (drop (page * limit) rows) pos in
    rw start (λ h. e (c (a h)), λ h. b (d (f h)))
