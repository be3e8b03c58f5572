-- ===== src/Data.antt =====
-- The data that the services exchange (common/src/data, common/src/config/kafka.config.ts).
pub mod SourceEnums
pub mod FeedEnums
pub mod Channels
pub mod Records
