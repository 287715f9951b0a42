-- ===== src/Security.antt =====
-- src/security: webhook URLs, signatures, and the guards of the HTTP interface.
pub mod ApiKey
pub mod Bytes
pub mod Guards
pub mod SafeUrl
pub mod Signing
