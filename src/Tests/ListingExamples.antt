-- ===== src/Tests/ListingExamples.antt =====
-- The theorems on pages, applied to the small deployment.
use mathlib.Core.List.{Permᴰ}
use webhook_engine.Base.{
  ℕ, ◌≡◌, refl, ◌≢◌, ◌↔◌, true, none, some, List, [], ◌∷◌, map, length, arith,
}
use webhook_engine.Prisma.{reference, reference-IsLawful}
use webhook_engine.Schema.{DeliveryStatus, WebhookEvent, Delivery, Db}
use webhook_engine.Listing.Arranged.{IsArranged}
use webhook_engine.Listing.{pagination, page_of}
use webhook_engine.Listing.Events.{EventListQuery, EventView, find_all_events, matches_event}
use webhook_engine.Listing.Deliveries.{
  DeliveryListQuery, DeliveryView, find_all_deliveries, matches_delivery,
}
use webhook_engine.Listing.Conditions.{IsListedEvent, IsListedDelivery}
use webhook_engine.Listing.Walk.{walk}
use webhook_engine.Listing.Pages.{
  events_of, deliveries_of, find_all_events_pages, find_all_deliveries_pages, has_next_iff,
}
use webhook_engine.Tests.Data.{deployment, order, order_delivery}

abbrev all_events : EventListQuery
all_events = record {
  tenant_id = 1;
  status = none;
  type = none;
  from = none;
  to = none;
  page = 1;
  limit = 20;
}

abbrev all_deliveries : DeliveryListQuery
all_deliveries = record {
  tenant_id = 1;
  status = some DeliveryStatus.pending;
  event_id = none;
  endpoint_id = none;
  from = none;
  to = none;
  page = 1;
  limit = 20;
}

-- An event, and a newer one behind it; and pages of one row.
abbrev older : WebhookEvent
older = record order { id = 8; created_at = 0 }

abbrev newer : WebhookEvent
newer = record order { id = 9; created_at = 9 }

abbrev two_events : Db
two_events = record deployment { events = older ∷ newer ∷ [] }

abbrev one_event : EventListQuery
one_event = record all_events { limit = 1 }

find_all_events_pages_example :
    let walked =
      map
        (λ (v : EventView (ℕ × DeliveryStatus)). v.event)
        (walk
          (λ page. events_of (
            find_all_events reference
              (λ query rows. newer ∷ older ∷ [])
              (record one_event { page = page })
              two_events))
          (pagination 1 1 2).total_pages) in
    IsArranged (λ (e : WebhookEvent). e.created_at) (older ∷ newer ∷ []) walked
    × ((e : WebhookEvent) → (matches_event one_event e ≡ true) ↔ IsListedEvent one_event e)
unfolding matches_event
find_all_events_pages_example =
    find_all_events_pages reference reference-IsLawful (λ query rows. newer ∷ older ∷ []) one_event
      two_events (omega arith) ((omega arith, tt), (tt, tt))
      (λ page. record {
        same_rows = Permᴰ.swap refl refl;
        newest_first = ((omega arith, tt), (tt, tt));
      })

abbrev earlier : Delivery
earlier = record order_delivery { id = 8; created_at = 0 }

abbrev later : Delivery
later = record order_delivery { id = 9; created_at = 9 }

abbrev two_deliveries : Db
two_deliveries = record deployment { deliveries = earlier ∷ later ∷ [] }

abbrev one_delivery : DeliveryListQuery
one_delivery = record all_deliveries { limit = 1 }

find_all_deliveries_pages_example :
    let walked =
      map
        (λ (v : DeliveryView). v.delivery)
        (walk
          (λ page. deliveries_of (
            find_all_deliveries reference
              (λ query rows. later ∷ earlier ∷ [])
              (record one_delivery { page = page })
              two_deliveries))
          (pagination 1 1 2).total_pages) in
    IsArranged (λ (d : Delivery). d.created_at) (earlier ∷ later ∷ []) walked
    × ((d : Delivery)
        → (matches_delivery deployment.events one_delivery d ≡ true)
          ↔ IsListedDelivery deployment.events one_delivery d)
unfolding matches_delivery
find_all_deliveries_pages_example =
    find_all_deliveries_pages reference reference-IsLawful (λ query rows. later ∷ earlier ∷ [])
      one_delivery two_deliveries (omega arith) ((omega arith, tt), (tt, tt))
      (λ page. record {
        same_rows = Permᴰ.swap refl refl;
        newest_first = ((omega arith, tt), (tt, tt));
      })

abbrev three_rows : List ℕ
three_rows = 4 ∷ 5 ∷ 6 ∷ []

has_next_iff_example :
    ((pagination 1 2 (length three_rows)).has_next ≡ true) ↔ (page_of 2 2 three_rows ≢ [])
has_next_iff_example = has_next_iff 1 2 three_rows (omega arith)
