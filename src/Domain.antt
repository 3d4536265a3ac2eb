-- ===== src/Domain.antt =====
-- internal/core/domain: the value objects and entities of the core.
pub mod ServiceName
pub mod Spiffe
pub mod TrustDomain
pub mod Namespace
pub mod Identity
pub mod Keys
pub mod X509
pub mod TrustBundle
pub mod Cache
pub mod Status
pub mod Protocol
pub mod ServiceAddress
pub mod Certificate
pub mod SocketPath
pub mod HealthStatus
pub mod Document
pub mod Workload
