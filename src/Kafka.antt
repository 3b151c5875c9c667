-- ===== src/Kafka.antt =====
-- libs/smartfood-kafka/smartfood_kafka/consumer.py: the consumer's sessions, one message at a time and
-- in batches.
pub mod Rows
pub mod Consumer
pub mod Fates
pub mod Session
pub mod Delivered
pub mod Attempts
pub mod Progress
pub mod Batch
pub mod Settle
pub mod Assemble
pub mod Batches
mod Tests
