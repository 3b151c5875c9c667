-- ===== src/Outbox.antt =====
-- libs/smartfood-outbox/smartfood_outbox: the staging of events and the poller that publishes them.
pub mod Rows
pub mod Poller
pub mod Select
pub mod Sound
pub mod History
pub mod Drained
mod Tests
