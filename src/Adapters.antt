-- ===== src/Adapters.antt =====
-- internal/adapters: the adapters with logic of their own.
pub mod Source
pub mod Transport
pub mod Client
pub mod Server
