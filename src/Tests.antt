-- ===== src/Tests.antt =====
-- Runs of the model on small inputs.
mod Persistence
mod Jobs
mod Operations
mod Rules
mod Actions
mod Authorization
mod Validation
mod Privacy
mod Storage
mod Snapshot
mod Applications
mod Releases
