-- ===== src/Inventory.antt =====
-- Inventory: stock balances, the movement log, and the three documents that change stock
-- (src/modules/inventory).
pub mod Stock
pub mod Store
pub mod Reconciliation
pub mod Adjustment
pub mod Transfer
pub mod Orders
pub mod Receipt
pub mod History
mod Sample
mod Examples
