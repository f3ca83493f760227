-- ===== src/Feeds/Requests.antt =====
-- Who may ask for what, and who hears of it.
pub mod Owner
pub mod Author
pub mod Notified
pub mod Blocked
pub mod Reported
