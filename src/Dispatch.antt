-- ===== src/Dispatch.antt =====
-- internal/backend/dispatcher.go: claims, the processing of a claimed operation, and retries.
pub mod Retry
pub mod Claims
pub mod Outcomes
pub mod Targets
pub mod Process
