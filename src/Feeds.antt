-- ===== src/Feeds.antt =====
-- src/feeds.c: the feeds module.
pub mod State
pub mod Channels
pub mod Posts
pub mod Comments
pub mod Likes
pub mod Subscriptions
pub mod Init
pub mod Dispatch
pub mod Outbox
pub mod Rules
pub mod Sync
pub mod Transactions
pub mod Reads
pub mod Requests
