-- ===== src/Order.antt =====
-- The order service, services/order/app.
pub mod Models
pub mod Saga
pub mod Consumer
pub mod Service
pub mod Checkout
pub mod Kept
pub mod History
pub mod Unpaid
mod Tests
