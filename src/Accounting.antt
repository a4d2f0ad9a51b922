-- ===== src/Accounting.antt =====
-- src/modules/accounting.
pub mod Chart
pub mod DoubleEntry
pub mod Store
pub mod Period
pub mod Journal
pub mod TrialBalance
pub mod Posting
pub mod History
mod Sample
mod Examples
