-- ===== src/Feeds/Sync.antt =====
-- The channel tables in memory against the table `channels` of the database.
pub mod Tables
pub mod Steps
pub mod Run
pub mod Start
