-- ===== src/Server.antt =====
-- smartparcel-server.
pub mod Listing
pub mod Enums
pub mod Models
pub mod Config
pub mod Accounts
pub mod Auth
pub mod Events
pub mod Cards
pub mod GateAuth
pub mod Registration
pub mod Provisioning
pub mod Pickup
pub mod Payload
pub mod Sync
pub mod Examples
