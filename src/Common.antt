-- ===== src/Common.antt =====
-- The package common/common that all services share.
pub mod Errors
pub mod Events
pub mod Outbox
pub mod Kafka
pub mod OrderStatus
pub mod Text
