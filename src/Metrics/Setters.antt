-- ===== src/Metrics/Setters.antt =====
-- The setters of the collector, by the part of the device that they report.
pub mod Device
pub mod Interface
pub mod Switching
pub mod Health
