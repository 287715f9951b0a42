-- ===== src/Events/Publisher/Rounds.antt =====
-- A round of the outbox publisher: `publishPending` of
-- src/events/infrastructure/queue/delivery-outbox-publisher.service.ts
use webhook_engine.Base.{◌≡◌, true, false, ok, final, arith, Bool-cases, inl, inr, ◌⊎◌}
use webhook_engine.Prisma.{Prisma}
use webhook_engine.Events.Publisher.{Publisher, PublisherServices, publish_pending}

-- A round that finds another one going on does nothing; any other ends with the publisher idle, even if
-- it failed: the flag never stays set.
pub publish_pending-idle :
    {E : Type 0} (db : Prisma) (svc : PublisherServices E) (p : Publisher E)
    → ((p.publishing ≡ true) × (publish_pending db svc p ≡ (ok tt, p)))
      ⊎ ((p.publishing ≡ false) × ((final (publish_pending db svc) p).publishing ≡ false))
unfolding publish_pending
publish_pending-idle db svc p = elim (Bool-cases p.publishing) [
  | inl busy ↦ inl (busy, simp busy)
  | inr idle ↦ inr (idle, ground arith)
]
