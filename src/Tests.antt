-- ===== src/Tests.antt =====
-- Runs of the definitions on small inputs, and each theorem at a concrete input.
pub mod Samples
pub mod Gateways
pub mod Plans
pub mod Translations
pub mod Controllers
pub mod Statuses
pub mod Server
pub mod Caches
pub mod Clusters
pub mod Routes
pub mod Served
pub mod Restarts
pub mod Events
