-- ===== src/Pricing.antt =====
-- libs/smartfood-pricing/smartfood_pricing: the price of a cart over a catalog snapshot.
pub mod Rows
pub mod Engine
pub mod Order
pub mod Cost
pub mod Charge
pub mod Report
mod Tests
pub mod Hours
pub mod Posted
