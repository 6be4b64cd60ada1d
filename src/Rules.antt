-- ===== src/Rules.antt =====
-- The rules that turn tracks into events (backend/src/vision_app/rules).
pub mod Intervals
pub mod Merging
pub mod Disposition
pub mod Exactness
pub mod State
pub mod Reducer
pub mod Crossings
pub mod Gaps
pub mod Flush
