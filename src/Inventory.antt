-- ===== src/Inventory.antt =====
-- The inventory service, services/inventory/app.
pub mod Models
pub mod Records
pub mod Settle
pub mod Reserve
pub mod Consumer
pub mod Admin
pub mod Quantities
pub mod Invariant
pub mod History
pub mod Announces
mod Tests
