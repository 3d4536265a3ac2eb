-- ===== src/Services.antt =====
-- internal/core/services: the identity service, its connection registry, and the services around them.
pub mod State
pub mod Retry
pub mod Lookup
pub mod Create
pub mod Keyed
pub mod Registry
pub mod Enforcement
pub mod Continuity
pub mod Health
