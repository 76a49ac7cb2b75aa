-- ===== src/Scheduler.antt =====
-- internal/scheduler/scheduler.go
pub mod World
pub mod Collect
pub mod Device
pub mod Cycle
pub mod Start
pub mod Ownership
pub mod Frame
pub mod Steps
pub mod Fallback
pub mod Implemented
