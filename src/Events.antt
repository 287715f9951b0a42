-- ===== src/Events.antt =====
-- src/events: accepting events, publishing the outbox, and maintenance.
pub mod Ingest
pub mod Queue
pub mod Maintenance
pub mod Publisher
pub mod Scheduler
