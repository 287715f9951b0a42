-- ===== src/Tests.antt =====
-- Concrete inputs, on which the theorems are applied.
pub mod Data
pub mod RedisData
pub mod SecurityData
mod Examples
mod MoreExamples
mod ListingExamples
mod EndpointExamples
mod SecurityExamples
mod TenantExamples
mod HttpExamples
mod LifeExamples
mod PublisherExamples
