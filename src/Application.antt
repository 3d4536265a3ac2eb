-- ===== src/Application.antt =====
-- internal/core/application: the use cases on the identity and bundle ports.
pub mod Providers
pub mod Rotation
pub mod Authentication
