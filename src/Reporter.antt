-- ===== src/Reporter.antt =====
-- stats-reporter/report.js, function by function.
pub mod Timestamp
pub mod Delivery
pub mod Start
pub mod Count
pub mod Gather
pub mod Args
mod Tests
