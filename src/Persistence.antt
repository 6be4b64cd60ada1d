-- ===== src/Persistence.antt =====
-- The in-memory repository (backend/src/vision_app/persistence/memory.py).
pub mod Value
pub mod Docs
pub mod Repository
pub mod Documents
pub mod Budgets
pub mod Apps
pub mod Runs
pub mod Events
pub mod Deliveries
pub mod Deletion
pub mod Command
