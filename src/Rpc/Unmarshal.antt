-- ===== src/Rpc/Unmarshal.antt =====
-- src/rpc.c: a function for each request.
pub mod Accounts
pub mod Channels
pub mod Posts
pub mod Comments
pub mod Queries
