-- ===== src/Common/Kafka.antt =====
-- How the services receive events: common/common/kafka/consumer.py and common/common/db/idempotency.py.
pub mod Consumer
pub mod Log
pub mod Once
pub mod Committed
pub mod Parked
mod Tests
