-- ===== src/Examples.antt =====
-- Concrete inputs on which the theorems' hypotheses hold.
mod Sdk
mod Values
mod Names
mod Bundles
mod Connections
mod Lookups
mod Monitors
mod Shutdowns
mod Rotations
mod Documents
mod Authentications
mod Configurations
mod Peers
mod Addresses
mod Servers
