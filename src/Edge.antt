-- ===== src/Edge.antt =====
-- services/edge-bff/edge_bff: the rate limiter and the route table.
pub mod Limiter
pub mod Counter
pub mod Window
pub mod Bound
pub mod Routing
pub mod Match
mod Tests
