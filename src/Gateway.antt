-- ===== src/Gateway.antt =====
-- smartparcel-gateway.
pub mod Enums
pub mod Entities
pub mod Ble
pub mod Client
pub mod Config
pub mod Inbox
pub mod LocalAuth
pub mod Outside
pub mod Provisioning
pub mod SecurityAudit
pub mod Tasks
pub mod Sync
mod Examples
pub mod Access
