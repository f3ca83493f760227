-- ===== src/Tests.antt =====
-- Tests of the theorems on a small service.
pub mod Data
mod Runs
mod Requests
mod Writes
mod Queues
mod Sessions
mod Listings
mod Comments
mod Messages
