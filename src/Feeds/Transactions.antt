-- ===== src/Feeds/Transactions.antt =====
-- The handlers as database transactions.
pub mod Defs
pub mod Run
pub mod Limit
pub mod Likes
pub mod Counted
pub mod Liked
pub mod Deleted
pub mod Authors
