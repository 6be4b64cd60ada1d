-- ===== src/Jobs.antt =====
-- Job dispatch and fenced attempts (backend/src/vision_app/jobs).
pub mod State
pub mod Store
pub mod Executor
pub mod Sink
pub mod Service
pub mod Atomic
pub mod Growth
pub mod Refusal
pub mod Cancelling
pub mod Dispatching
pub mod Fencing
pub mod Leases
pub mod Reopening
