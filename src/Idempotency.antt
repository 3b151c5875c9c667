-- ===== src/Idempotency.antt =====
-- libs/smartfood-idempotency/smartfood_idempotency/store.py: the idempotency protocol of
-- `IdempotencyStore`. A statement that commits is one step on the table; what other processes do
-- between two statements of one call is a part of its schedule.
pub mod Rows
pub mod Store
pub mod Reserve
pub mod Takeover
pub mod Invariant
pub mod Purge
mod Tests
