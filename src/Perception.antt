-- ===== src/Perception.antt =====
-- The signal intervals of backend/src/vision_app/perception.
pub mod Signal
pub mod Coverage
