-- ===== src/Rpc/Sound.antt =====
-- src/rpc.c: each function that unmarshals a request ensures what the handlers rely on.
pub mod Accounts
pub mod Channels
pub mod Posts
pub mod Comments
pub mod Queries
