-- ===== src/Payment.antt =====
-- The payment service, services/payment/app.
pub mod Models
pub mod Gateway
pub mod Service
pub mod Consumer
pub mod Invariant
pub mod History
pub mod Rollback
pub mod Announced
pub mod Rows
mod Tests
