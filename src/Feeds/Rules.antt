-- ===== src/Feeds/Rules.antt =====
-- For each handler one rule: a predicate is kept if the handler's one write keeps it.
pub mod Exits
pub mod Nodes
pub mod Run
pub mod Channels
pub mod Posts
pub mod Comments
pub mod Likes
pub mod Subscriptions
