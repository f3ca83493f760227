-- ===== src/Db.antt =====
-- src/db.cpp: the tables of the SQLite database, and the functions that read and write them.
pub mod Tables
pub mod Channels
pub mod Posts
pub mod Comments
pub mod Listings
pub mod Listed
pub mod Frames
pub mod Lookup
pub mod RoundTrips
pub mod Shown
