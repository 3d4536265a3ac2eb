-- ===== src/Lib.antt =====
-- A verification library for the core of ephemos, the identity library on SPIFFE and mTLS.
--
-- The program: an identity service (internal/core/services/identity_service.go) takes X.509 certificates
-- and trust bundles from a provider, keeps them in two caches with a time to live, validates them, and
-- makes servers and clients from them. It owns a registry of mTLS connections
-- (mtls_connection_registry.go) that rotates their certificates, and an enforcement service
-- (mtls_enforcement_service.go) that checks invariants on them and closes those that violate them. All
-- three work on the values of internal/core/domain. Beside it, internal/core/application has a service
-- that rotates an SVID through two ports, internal/adapters/secondary/transport makes an identity provider
-- a cached source of go-spiffe's, and internal/shutdown stops what a program has registered.
--
-- The files:
--   * Base, with Tests, Lists, Results and Int: helpers; a Go call that may fail is a Result, int64
--     arithmetic wraps as written in Base/Int.
--   * GoText, GoTime, Regex: the parts of Go's strings, time and regexp that the source uses. A string is
--     its list of code points, an instant a number of nanoseconds, a duration an int64 of them.
--   * Domain/Spiffe, Domain/X509: package spiffeid, x509 and x509svid as records of operations; Spiffe's
--     IsSdk states the documented laws. Neither package is in the repository.
--   * Domain/ServiceName, TrustDomain, Namespace, Identity, Keys, TrustBundle, Cache, Status, SocketPath,
--     HealthStatus, Certificate: the files service_name.go, trust_domain.go, identity_namespace.go,
--     service_identity.go, cryptography.go, trust_bundle.go, cache.go, status.go, socket_path.go,
--     health_status.go, certificate.go of internal/core/domain. A function or
--     method F is the definition f with the type's name where two types share it: NewServiceName is
--     new_service_name, TrustBundle.Validate is bundle_validate, ServiceIdentity.Validate is
--     identity_validate. A pointer that may be nil is an option; a method that reads the clock takes the
--     time.
--   * Services/State: the fields of IdentityService as a record, its mutex included; a method's call
--     either returns, in a state, or waits for the mutex. A panic is one of the errors. Where another
--     component calls it, reply sorts the answers into values, errors, panics and calls that never return.
--   * Services/Retry, Services/Lookup, Services/Create: the loops that fetch, getCertificate and
--     getTrustBundle, and the constructors of servers and clients with the validation before them. The
--     instants at which a call reads the clock are an argument (Readings).
--   * Services/Keyed: a Go map with strings for keys.
--   * Services/Registry: the map of connections as an association list, and every operation on it.
--   * Services/Enforcement: the five default invariants, validation, one pass over all connections,
--     and EstablishMTLSConnection behind its lookup.
--   * Services/Continuity: rotation_continuity_service.go, the phases of one rotation and the tables of
--     active rotations.
--   * Services/Health: health_monitor.go; the stop channels are numbered, so that a loop that waits on an
--     old one and a loop that waits on the new one differ.
--   * Domain/Document, Domain/Workload: identity_document.go and workload.go; a method that marks the
--     document or the workload returns it anew.
--   * Application/Providers, Application/Rotation: the ports' answers to one call, and
--     identity_rotation_service.go; a call of it reads the clock once.
--   * Application/Authentication: authentication_service.go; Retry, Svids and Connections below it hold its
--     theorems.
--   * Configuration: ports/configuration.go, with the loading and merging in Configuration/Environment, the
--     checks for production in Configuration/Production, and configuration_builder.go in
--     Configuration/Builder. The custom validators of validation.go stand in Configuration.
--   * Adapters/Source: SourceAdapter of grpc_provider_rotatable.go. A lookup is given the adapter as it is
--     at the read lock and as it is when the write lock is given, since other calls may lie between.
--   * Adapters/Transport: the RotatableGRPCProvider of the same file, and trust_domain_adapter.go; an
--     authorizer and a TLS configuration are what they were made of.
--   * Middleware: the handlers of contrib/middleware/gin/identity.go; a handler ends a request with a status
--     or lets it through.
--   * Domain/ServiceAddress, Domain/Protocol, GoNet: service_address.go and protocol.go, with
--     net.SplitHostPort and strconv.Atoi written out.
--   * Adapters/Client: internal/adapters/primary/api/client.go; Adapters/Client/Waits puts it over the identity
--     service.
--   * Adapters/Server: internal/adapters/primary/api/server.go and the server of grpc_provider.go.
--   * Shutdown: coordinator.go of internal/shutdown. Shutdown/Run is one shutdown as a step relation, with
--     the goroutines' steps in any order; an append to the slice of errors is a read and a write, a slice
--     is its value, and a read never sees half of a write.
--   * Examples: an SDK with the laws, and concrete inputs for the theorems.
--   Below a component, the modules of theorems are named for what they prove.
--
-- Bounds: the loops that fetch make three attempts, the source's own maximum, so that the fuel of
-- fetch_from is the source's bound, and that of refresh_from is maxRetries; everything else is by recursion on data.
--
-- Not modelled: goroutines other than as a sequence of calls, tickers, logging and message texts, the
-- verification of signatures (a parameter), the maps of texts in GetInvariantStatus, rotations
-- that run at once, the loops of the rotation service, the other adapters, package pkg/ephemos and the tools.
-- viper and go-playground/validator are parameters, as are the answers of the ports.
mod Base
pub mod GoText
pub mod GoTime
pub mod Regex
pub mod GoNet
pub mod Domain
pub mod Shutdown
pub mod Services
pub mod Application
pub mod Configuration
pub mod Middleware
pub mod Adapters
mod Examples
