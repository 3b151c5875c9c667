-- ===== src/Payment.antt =====
-- services/payment/payment: the money operations of `PaymentService` (domain/service.py) over the
-- statements of `PaymentRepo` (adapters/repo.py) and the shared idempotency store.
pub mod Rows
pub mod Service
pub mod Books
pub mod Moves
pub mod Ledger
pub mod Authorize
pub mod History
pub mod Replay
pub mod Errors
mod Tests
