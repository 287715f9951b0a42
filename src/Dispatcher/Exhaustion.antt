-- ===== src/Dispatcher/Exhaustion.antt =====
-- Attempt after attempt at one delivery: `execute` of
-- src/dispatcher/application/services/delivery-executor.service.ts, with the attempt numbers that the
-- outbox rows carry.
pub mod Related
pub mod Attempts
pub mod Rounds
