-- ===== src/Operations.antt =====
-- Budgets and limits of a run (backend/src/vision_app/operations).
pub mod Ledger
pub mod Atomic
pub mod Entries
pub mod Solvency
pub mod Limits
pub mod Usage
