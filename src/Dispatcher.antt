-- ===== src/Dispatcher.antt =====
-- src/dispatcher: the worker's side of the engine.
pub mod Policy
pub mod Repository
pub mod Retry
pub mod Redaction
pub mod Executor
pub mod HttpChannel
pub mod Process
pub mod RateLimit
pub mod Signed
pub mod Claims
pub mod Overtaken
pub mod Exhaustion
