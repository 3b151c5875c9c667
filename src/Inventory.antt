-- ===== src/Inventory.antt =====
-- services/inventory/inventory: stock, kitchen capacity and the reservation lifecycle of
-- `InventoryService` (domain/service.py) over the statements of `InventoryRepo` (adapters/repo.py).
-- Each method is one transaction that no other one interleaves with; a raise rolls it back.
pub mod Rows
pub mod Repo
pub mod Service
pub mod Stock
pub mod Cases
pub mod Valid
pub mod Conserve
pub mod Slots
pub mod Keeps
pub mod History
pub mod Admit
pub mod Final
mod Tests
