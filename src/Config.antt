-- ===== src/Config.antt =====
-- The configuration of the services (common/src/config/relayd.config.ts).
pub mod Defaults
pub mod Service
pub mod Settings
pub mod Ranges
mod Tests
