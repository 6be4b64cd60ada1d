-- ===== src/Actions.antt =====
-- External actions (backend/src/vision_app/actions).
pub mod Eligibility
pub mod Outbox
pub mod Delivering
