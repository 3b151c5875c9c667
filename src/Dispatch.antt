-- ===== src/Dispatch.antt =====
-- The parts of services/dispatch that assign riders: the tables' conditional writes, the cascade's
-- operations, the rider's taps, and what they keep.
pub mod Rows
pub mod Store
pub mod Service
pub mod Taps
pub mod Writes
pub mod Capacity
pub mod Follows
pub mod Life
pub mod Offers
pub mod Calls
pub mod History
pub mod Accept
pub mod Cancel
mod Tests
