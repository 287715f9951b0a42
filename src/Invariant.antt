-- ===== src/Invariant.antt =====
-- The invariant of the database: the status of an event tells the truth about its deliveries. It is about
-- src/dispatcher/infrastructure/persistence, src/events/infrastructure and src/deliveries/infrastructure
-- together. What a failure that is recorded late does to it is in Invariant/Late.
pub mod Summary
pub mod Change
pub mod Claim
pub mod Marks
pub mod Replay
pub mod NewRows
pub mod Ingest
pub mod Recovery
pub mod Steps
pub mod Lifecycle
pub mod Attempt
pub mod Worker
pub mod Late
use webhook_engine.Base.{ℕ, suc, ◌≤◌, ◌<◌, List, [], ◌∷◌, All}
use webhook_engine.Schema.{Delivery, WebhookEvent, Db}
use Summary.{Agrees, HasDistinctIds}

abbrev pub AgreesWith : List Delivery → WebhookEvent → Type 0
AgreesWith ds e = Agrees e.status e.id ds

pub record Consistent (s : Db) : Type 0 where
  pub distinct : HasDistinctIds s.deliveries
  pub fresh : All (λ (d : Delivery). d.id < s.next_id) s.deliveries
  pub known : All (λ (d : Delivery). d.event_id < s.next_id) s.deliveries
  pub numbered : All (λ (e : WebhookEvent). e.id < s.next_id) s.events
  pub agree : All (AgreesWith s.deliveries) s.events
