-- ===== src/Feeds/Reads.antt =====
-- src/feeds.c: the requests that read.
pub mod Pages
pub mod Defs
pub mod Shown
pub mod Served
pub mod Comments
